-- ===== src/Sqlite/Rounds.antt =====
-- The rounds of `WITH RECURSIVE descendants` (catalog/v1/sqlite/query.go), and that they end.
use library_olm.Prelude.{
  ℕ, zero, suc, ◌+◌, ◌≤◌, ◌<◌, true, List, [], ◌∷◌, ◌++◌, All, ◌≡◌, refl, sym, ap, ◌∙◌, arith,
}
use library_olm.Sqlite.Tables.{GraphRow, is_parent, has_id, children, descend}
use library_olm.Sqlite.Edges.{is_edge, has_id-any, has_id-children, is_edge-rises}

-- The ids that the `n`-th round finds.
pub found_by_round : ℕ → List GraphRow → List ℕ → List ℕ
found_by_round zero gs ids = ids
found_by_round (suc n) gs ids = found_by_round n gs (children gs ids)

nothing-children : (gs : List GraphRow) → children gs [] ≡ []
unfolding children
nothing-children [] = refl
nothing-children (g ∷ gs) = nothing-children gs

nothing-found : (n : ℕ) (gs : List GraphRow) → found_by_round n gs [] ≡ []
unfolding found_by_round
nothing-found zero gs = refl
nothing-found (suc n) gs = rw (nothing-children gs) (nothing-found n gs)

module _ (next : ℕ) (gs : List GraphRow)
    (forest : All
      (λ (g : GraphRow). (g.id < next) × ((i : ℕ) → is_parent i g.parent_id ≡ true → i < g.id))
      gs) where
  -- What a round finds has risen since the first by one at least in each round between.
  children-rise :
      (n : ℕ) (ids : List ℕ)
      → ((i : ℕ) → has_id ids i ≡ true → n ≤ i)
      → (j : ℕ) → has_id (children gs ids) j ≡ true
      → (suc n ≤ j) × (j < next)
  children-rise n ids low j h =
      let (i, m, e) = has_id-any (λ i. is_edge gs i j) ids (sym (has_id-children gs ids j) ∙ h) in
      let (r, r') = is_edge-rises next gs forest i j e in let l = low i m in (omega arith, r')

  none_found : (ids : List ℕ) → ((i : ℕ) → has_id ids i ≡ true → next ≤ i) → children gs ids ≡ []
  none_found ids low = empty (children gs ids) (children-rise next ids low)
    where
      empty : (js : List ℕ) → ((j : ℕ) → has_id js j ≡ true → (suc next ≤ j) × (j < next)) → js ≡ []
      empty [] h = refl
      empty (j ∷ js) h = let (a, b) = h j (ground arith) in absurd (omega arith)

  -- With ids from `k` on, the first round that finds nothing is the `n`-th behind or an earlier one.
  pub found_by_round-ends :
      (t n k : ℕ) (ids : List ℕ)
      → ((i : ℕ) → has_id ids i ≡ true → k ≤ i)
      → next ≤ n + k
      → n < t
      → found_by_round t gs ids ≡ []
  unfolding found_by_round
  found_by_round-ends zero n k ids low l m = absurd (omega arith)
  found_by_round-ends (suc t) zero k ids low l m =
      rw (none_found ids λ i h. at_least (low i h)) (nothing-found t gs)
    where
      at_least : {i : ℕ} → k ≤ i → next ≤ i
      at_least h = omega (arith, l, h)
  found_by_round-ends (suc t) (suc n) k ids low l m =
      found_by_round-ends t n (suc k) (children gs ids) (λ j h. (children-rise k ids low j h).0)
        (omega arith) (omega arith)

  nothing-descend : (t : ℕ) → descend t gs [] ≡ []
  unfolding descend
  nothing-descend zero = refl
  nothing-descend (suc t) = rw (nothing-children gs) (nothing-descend t)

  pub descend-more :
      (t n k : ℕ) (ids : List ℕ)
      → ((i : ℕ) → has_id ids i ≡ true → k ≤ i)
      → next ≤ n + k
      → n ≤ t
      → descend t gs ids ≡ descend n gs ids
  unfolding descend
  descend-more zero zero k ids low l m = refl
  descend-more zero (suc n) k ids low l m = absurd (omega arith)
  descend-more (suc t) zero k ids low l m =
      rw (none_found ids λ i h. at_least (low i h)) (nothing-descend t)
    where
      at_least : {i : ℕ} → k ≤ i → next ≤ i
      at_least h = omega (arith, l, h)
  descend-more (suc t) (suc n) k ids low l m =
      ap (λ js. children gs ids ++ js)
        (descend-more t n (suc k) (children gs ids) (λ j h. (children-rise k ids low j h).0)
          (omega arith) (omega arith))
