-- ===== src/Sqlite/Descent.antt =====
-- The graphs below a graph (`WITH RECURSIVE descendants` of catalog/v1/sqlite/query.go).
use library_olm.Prelude.{
  ℕ, zero, suc, ◌+◌, ◌≤◌, ◌<◌, Bool, true, false, ◌||◌, List, [], ◌∷◌, All, nat_eq, ◌↔◌, ◌⊎◌, inl,
  inr, ◌≡◌, refl, sym, ap, ◌∙◌, arith,
}
use mathlib.Core.Path.{subst}
use library_olm.Sqlite.Tables.{
  GraphRow, Database, is_parent, has_id, children, descend, descendants,
}
use library_olm.Sqlite.Edges.{
  is_edge, any-append, any-has_id, has_id-any, has_id-children, is_edge-rises,
}
use library_olm.Sqlite.Rounds.{found_by_round, found_by_round-ends, descend-more}

-- The ids below an id: its children, and those below them.
pub data Below (gs : List GraphRow) : ℕ → ℕ → Type 0 where
  child : (i j : ℕ) → is_edge gs i j ≡ true → Below gs i j
  below : (i j k : ℕ) → is_edge gs i j ≡ true → Below gs j k → Below gs i k

-- A parent has a smaller id, and no id is given yet that is still to be given.
abbrev pub IsForest : Database → Type 0
IsForest db =
    All
      (λ (g : GraphRow).
        (g.id < db.next_graph) × ((i : ℕ) → is_parent i g.parent_id ≡ true → i < g.id))
      db.graphs

descend-Below :
    (n : ℕ) (gs : List GraphRow) (ids : List ℕ) (j : ℕ)
    → has_id (descend n gs ids) j ≡ true
    → (i : ℕ) × (has_id ids i ≡ true) × Below gs i j
unfolding descend
descend-Below zero gs ids j h = absurd (ground arith)
descend-Below (suc n) gs ids j h =
    elim (either (any-append (λ x. nat_eq x j) (children gs ids) (descend n gs (children gs ids)))
      h) [
        | inl e ↦
            let (i, m, k) =
              has_id-any (λ i. is_edge gs i j) ids (sym (has_id-children gs ids j) ∙ e) in
            (i, m, child i j k)
        | inr e ↦
            let (mid, m, b) = descend-Below n gs (children gs ids) j e in
            let (i, m', k) =
              has_id-any (λ i. is_edge gs i mid) ids (sym (has_id-children gs ids mid) ∙ m) in
            (i, m', below i mid j k b)
      ]
  where
    either : {a : Bool} {b c : Bool} → a ≡ (b || c) → a ≡ true → (b ≡ true ⊎ c ≡ true)
    either {b = true} e h = inl refl
    either {b = false} e h = inr (sym e ∙ h)

-- Ids rise from round to round, so that a round for each id is enough.
module _ (next : ℕ) where
  module _ (gs : List GraphRow)
      (forest : All
        (λ (g : GraphRow). (g.id < next) × ((i : ℕ) → is_parent i g.parent_id ≡ true → i < g.id))
        gs) where
    Below-rises : {i j : ℕ} → Below gs i j → (i < j) × (j < next)
    Below-rises (child i j e) = is_edge-rises next gs forest i j e
    Below-rises (below i j k e b) =
        let (l, m) = Below-rises b in
        let (l', m') = is_edge-rises next gs forest i j e in (omega arith, m)

    Below-descend :
        (n : ℕ) (ids : List ℕ) {i j : ℕ}
        → Below gs i j
        → j ≤ n + i
        → has_id ids i ≡ true
        → has_id (descend n gs ids) j ≡ true
    unfolding descend
    Below-descend zero ids b l m = let (r, r') = Below-rises b in absurd (omega arith)
    Below-descend (suc n) ids (child i j e) l m =
        any-append (λ x. nat_eq x j) (children gs ids) (descend n gs (children gs ids))
        ∙ ap (λ b. b || has_id (descend n gs (children gs ids)) j)
            (has_id-children gs ids j ∙ any-has_id (λ i. is_edge gs i j) ids i m e)
    Below-descend (suc n) ids (below i j k e b) l m =
        let (r, r') = is_edge-rises next gs forest i j e in
        let rest =
          Below-descend n (children gs ids) b (omega arith)
            (has_id-children gs ids j ∙ any-has_id (λ i. is_edge gs i j) ids i m e) in
        any-append (λ x. nat_eq x k) (children gs ids) (descend n gs (children gs ids))
        ∙ (rw rest (or_true (has_id (children gs ids) k)))
      where
        or_true : (b : Bool) → (b || true) ≡ true
        or_true true = refl
        or_true false = refl

-- On a forest in which ids rise, the query for the graphs below a graph ends: every round behind as
-- many rounds as ids were given finds nothing, and to run more rounds than those gives the same ids.
-- It finds each graph below, at any depth, and no other.
pub descendants_iff :
    (db : Database)
    → IsForest db
    → (i : ℕ)
    → ((n : ℕ) → db.next_graph < n → found_by_round n db.graphs (i ∷ []) ≡ [])
      × ((n : ℕ) → db.next_graph ≤ n → descend n db.graphs (i ∷ []) ≡ descendants db i)
      × ((j : ℕ) → (has_id (descendants db i) j ≡ true) ↔ Below db.graphs i j)
unfolding descendants
descendants_iff db forest i = (
  λ n l.
      found_by_round-ends db.next_graph db.graphs forest n db.next_graph 0 (i ∷ [])
        (λ j h. omega arith) (omega arith) l,
  λ n l.
      descend-more db.next_graph db.graphs forest n db.next_graph 0 (i ∷ []) (λ j h. omega arith)
        (omega arith) l,
  λ j. (
    λ h. found j (descend-Below db.next_graph db.graphs (i ∷ []) j h),
    λ b.
        let (r, r') = Below-rises db.next_graph db.graphs forest b in
        Below-descend db.next_graph db.graphs forest db.next_graph (i ∷ []) b (omega arith)
          (ground arith),
  ),
)
  where
    found :
        (j : ℕ) → (k : ℕ) × (has_id (i ∷ []) k ≡ true) × Below db.graphs k j → Below db.graphs i j
    found j (k, m, b) = subst (λ n. Below db.graphs n j) (same m) b
      where
        same : has_id (i ∷ []) k ≡ true → k ≡ i
        same m = ground arith
