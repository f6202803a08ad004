-- ===== src/Prelude/Sets.antt =====
-- Sets of strings that have one element.
use Prim.Native.String.{String}
use mathlib.Core.Path.{◌≡◌, refl, ◌∙◌}
use mathlib.Core.Bool.{Bool, true, false, ◌&&◌, ◌||◌}
use mathlib.Core.Logic.{inl, inr}
use mathlib.Core.List.{List, [], ◌∷◌, ◌++◌}
use native.Mathlib.Omega.{arith}
use text.Mathlib.TextEquality.{eq_iff}
use library_olm.Prelude.Tests.{Bool-cases, nat_eq}
use library_olm.Prelude.Lists.{all, length}
use library_olm.Prelude.Text.{contains, insert, ◌==◌}
use library_olm.Prelude.Empty.{distinct}

pub all-append {ℓ} :
    {A : Type ℓ} (p : A → Bool) (xs ys : List A) → all p (xs ++ ys) ≡ (all p xs && all p ys)
all-append p [] ys = refl
all-append p (x ∷ xs) ys = ground (arith, all-append p xs ys)

distinct-snoc :
    (xs : List String) (a : String)
    → contains xs a ≡ false
    → distinct xs ≡ true
    → distinct (xs ++ (a ∷ [])) ≡ true
unfolding contains
distinct-snoc [] a h d = refl
distinct-snoc (x ∷ xs) a h d =
    ground (arith, contains-snoc xs x a, distinct-snoc xs a, eq_iff a x, eq_iff x a)
  where
    contains-snoc :
        (ys : List String) (b c : String) → contains (ys ++ (c ∷ [])) b ≡ (contains ys b || c == b)
    contains-snoc [] b c = unfold contains in ground arith
    contains-snoc (y ∷ ys) b c = ground (arith, contains-snoc ys b c)

pub distinct-insert :
    (xs : List String) (a : String) → distinct xs ≡ true → distinct (insert xs a) ≡ true
unfolding insert
distinct-insert xs a d = elim (Bool-cases (contains xs a)) [
  | inl old ↦ rw old d
  | inr new ↦ rw new (distinct-snoc xs a new d)
]

module _ (a : String) where
  -- Every member is `a`.
  abbrev pub only : List String → Bool
  only xs = all (λ x. x == a) xs

  only-contains :
      (xs : List String) (b : String) → contains xs b ≡ true → only xs ≡ true → b == a ≡ true
  unfolding contains
  only-contains [] b h o = ground arith
  only-contains (x ∷ xs) b h o = ground (arith, only-contains xs b, eq_iff x b)

  pub only-insert : (xs : List String) (b : String) → only (insert xs b) ≡ (only xs && b == a)
  unfolding insert
  only-insert xs b = elim (Bool-cases (contains xs b)) [
    | inl old ↦ rw old (ground (arith, only-contains xs b old))
    | inr new ↦ rw new (all-append (λ x. x == a) xs (b ∷ []) ∙ (ground arith))
  ]

  -- A set of one element that holds `a` is a set that holds `a` and nothing else.
  pub singleton :
      (xs : List String)
      → distinct xs ≡ true
      → (nat_eq (length xs) 1 && contains xs a) ≡ (contains xs a && only xs)
  unfolding contains
  singleton [] d = refl
  singleton (x ∷ []) d = ground arith
  singleton (x ∷ y ∷ ys) d = ground (arith, eq_iff x a, eq_iff y a, eq_iff y x)
