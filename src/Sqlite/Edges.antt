-- ===== src/Sqlite/Edges.antt =====
-- The edges between graphs, as a round of `WITH RECURSIVE descendants` follows them
-- (catalog/v1/sqlite/query.go).
use library_olm.Prelude.{
  ℕ, ◌<◌, Bool, true, false, ◌||◌, ◌&&◌, List, [], ◌∷◌, ◌++◌, any, All, nat_eq, ◌⊎◌, inl, inr,
  Bool-cases, ◌≡◌, refl, sym, ap, ◌∙◌, arith,
}
use mathlib.Core.Path.{subst}
use library_olm.Sqlite.Tables.{GraphRow, is_parent, has_id, children}

-- a row with the id `j` whose parent is `i`
abbrev pub is_edge : List GraphRow → ℕ → ℕ → Bool
is_edge gs i j = any (λ (g : GraphRow). is_parent i g.parent_id && nat_eq g.id j) gs

module _ {A : Type 0} where
  any-or : (p q : A → Bool) (xs : List A) → any (λ x. p x || q x) xs ≡ (any p xs || any q xs)
  any-or p q [] = refl
  any-or p q (x ∷ xs) = ground (arith, any-or p q xs)

  any-and : (p : A → Bool) (b : Bool) (xs : List A) → any (λ x. p x && b) xs ≡ (any p xs && b)
  any-and p b [] = refl
  any-and p b (x ∷ xs) = ground (arith, any-and p b xs)

  any-none : (xs : List A) → any (λ x. false) xs ≡ false
  any-none [] = refl
  any-none (x ∷ xs) = any-none xs

pub any-append :
    {A : Type 0} (p : A → Bool) (xs ys : List A) → any p (xs ++ ys) ≡ (any p xs || any p ys)
any-append p [] ys = refl
any-append p (x ∷ xs) ys = ground (arith, any-append p xs ys)

-- An id that is in a list and passes a test, and back.
pub any-has_id :
    (q : ℕ → Bool) (ids : List ℕ) (i : ℕ) → has_id ids i ≡ true → q i ≡ true → any q ids ≡ true
any-has_id q (x ∷ ids) i h k = elim (Bool-cases (nat_eq x i)) [
  | inl e ↦ rw (subst (λ n. q n ≡ true) (sym (same x i e)) k) refl
  | inr e ↦ ground (arith, any-has_id q ids i (ground arith) k)
]
  where
    same : (x i : ℕ) → nat_eq x i ≡ true → x ≡ i
    same x i e = ground arith
any-has_id q [] i h k = absurd (ground arith)

pub has_id-any :
    (q : ℕ → Bool) (ids : List ℕ)
    → any q ids ≡ true
    → (i : ℕ) × (has_id ids i ≡ true) × (q i ≡ true)
has_id-any q [] h = absurd (ground arith)
has_id-any q (x ∷ ids) h = elim (Bool-cases (q x)) [
  | inl e ↦ (x, ground arith, e)
  | inr e ↦ let (i, m, k) = has_id-any q ids (ground arith) in (i, ground arith, k)
]

-- One round of the query finds the rows whose parents are in the list.
pub has_id-children :
    (gs : List GraphRow) (ids : List ℕ) (j : ℕ)
    → has_id (children gs ids) j ≡ any (λ i. is_edge gs i j) ids
unfolding children
has_id-children [] ids j = sym (any-none ids)
has_id-children (g ∷ gs) ids j =
    one_row (Bool-cases (any (λ i. is_parent i g.parent_id) ids)) (has_id-children gs ids j)
    ∙ sym (
        any-or (λ i. is_parent i g.parent_id && nat_eq g.id j) (λ i. is_edge gs i j) ids
        ∙ ap (λ b. b || any (λ i. is_edge gs i j) ids)
            (any-and (λ i. is_parent i g.parent_id) (nat_eq g.id j) ids))
  where
    one_row :
        (any (λ i. is_parent i g.parent_id) ids ≡ true
          ⊎ any (λ i. is_parent i g.parent_id) ids ≡ false)
        → has_id (children gs ids) j ≡ any (λ i. is_edge gs i j) ids
        → has_id (children (g ∷ gs) ids) j ≡ (
            any (λ i. is_parent i g.parent_id) ids && nat_eq g.id j
            || any (λ i. is_edge gs i j) ids)
    one_row (inl e) h = rw (e, h) refl
    one_row (inr e) h = rw (e, h) refl

-- Ids rise along an edge.
module _ (next : ℕ) where
  pub is_edge-rises :
      (gs : List GraphRow)
      → All
          (λ (g : GraphRow). (g.id < next) × ((i : ℕ) → is_parent i g.parent_id ≡ true → i < g.id))
          gs
      → (i j : ℕ) → is_edge gs i j ≡ true
      → (i < j) × (j < next)
  is_edge-rises [] forest i j e = absurd (ground arith)
  is_edge-rises (g ∷ gs) forest i j e =
      elim (Bool-cases (is_parent i g.parent_id && nat_eq g.id j)) [
        | inl h ↦ of_row (forest.0.1 i (ground arith)) forest.0.0 (ground arith)
        | inr h ↦ is_edge-rises gs forest.1 i j (ground arith)
      ]
    where
      of_row : i < g.id → g.id < next → nat_eq g.id j ≡ true → (i < j) × (j < next)
      of_row a b c = (ground arith, ground arith)
