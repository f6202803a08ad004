-- ===== src/Resolver/Groups.antt =====
-- `groupByPriority` lays the catalogs out in groups of one priority, the highest first.
use library_olm.Prelude.{
  lt, eq, gt, ◌≡◌, ◌≢◌, refl, sym, ap, ◌∙◌, List, [], ◌∷◌, ◌++◌, ℤ, compare_ℤ, compare_ℤ-IsOrder,
  is_eq, sort_func, sort_func-IsSorted, IsSorted, IsOrder-reverse, IsOrder-on, All, All-map,
  All-append, arith, Bool-cases, inl, inr, IsOrder, IsOrder-refl,
}
use mathlib.Core.List.{flatten, append_assoc}
use library_olm.Bundle.{SemVer}
use library_olm.Catalog.{Catalogs, Catalog}
use library_olm.Resolver.Select.{by_priority_desc, group_loop, group_sorted, group_by_priority}

module _ (v : SemVer) (c : Catalogs v) where
  -- A group of priority p, and behind it only lower priorities.
  pub record IsLayer (g : List (Catalog v c)) (rest : List (Catalog v c)) (p : ℤ) : Type 0 where
    pub same : All (λ (cat : Catalog v c). compare_ℤ cat.priority p ≡ eq) g
    pub below : All (λ (cat : Catalog v c). compare_ℤ cat.priority p ≡ lt) rest

  abbrev pub Layers : List (List (Catalog v c)) → Type 0
  Layers [] = Unit
  Layers (g ∷ gs) = ((p : ℤ) × IsLayer g (flatten gs) p) × Layers gs

  IsOrder-refl-ne : (p : ℤ) → compare_ℤ p p ≢ gt
  IsOrder-refl-ne p h = cc (IsOrder-refl compare_ℤ compare_ℤ-IsOrder p)

  by_priority_desc-IsOrder : IsOrder (by_priority_desc v c)
  by_priority_desc-IsOrder =
      IsOrder-reverse _
        (IsOrder-on (λ (cat : Catalog v c). cat.priority) compare_ℤ compare_ℤ-IsOrder)

  group_loop-groups :
      (groups : List (List (Catalog v c))) (current : List (Catalog v c)) (p : ℤ)
      (rest : List (Catalog v c))
      → group_loop v c groups current p rest ≡ groups ++ group_loop v c [] current p rest
  unfolding group_loop
  group_loop-groups groups current p [] = refl
  group_loop-groups groups current p (cat ∷ rest) =
      elim (Bool-cases (is_eq (compare_ℤ cat.priority p))) [
        | inl same ↦ rw same (group_loop-groups groups (current ++ (cat ∷ [])) p rest)
        | inr changed ↦ rw changed (
            group_loop-groups (groups ++ (current ∷ [])) (cat ∷ []) cat.priority rest
            ∙ append_assoc groups (current ∷ []) _
            ∙ ap (λ gs. groups ++ gs)
                (sym (group_loop-groups (current ∷ []) (cat ∷ []) cat.priority rest)))
      ]

  -- Nothing is lost.
  flatten-group_loop :
      (current : List (Catalog v c)) (p : ℤ) (rest : List (Catalog v c))
      → flatten (group_loop v c [] current p rest) ≡ current ++ rest
  unfolding group_loop flatten
  flatten-group_loop current p [] = refl
  flatten-group_loop current p (cat ∷ rest) = elim (Bool-cases (is_eq (compare_ℤ cat.priority p))) [
    | inl same ↦
        rw same
          (flatten-group_loop (current ++ (cat ∷ [])) p rest ∙ append_assoc current (cat ∷ []) rest)
    | inr changed ↦ rw changed (
        ap flatten (group_loop-groups (current ∷ []) (cat ∷ []) cat.priority rest)
        ∙ ap (λ gs. current ++ gs) (flatten-group_loop (cat ∷ []) cat.priority rest))
  ]

  group_loop-Layers :
      (current : List (Catalog v c)) (p : ℤ) (rest : List (Catalog v c))
      → All (λ (cat : Catalog v c). compare_ℤ cat.priority p ≡ eq) current
      → All (λ (cat : Catalog v c). compare_ℤ cat.priority p ≢ gt) rest
      → IsSorted (by_priority_desc v c) rest
      → Layers (group_loop v c [] current p rest)
  unfolding group_loop
  group_loop-Layers current p [] h k s =
      ((p, record { same = h; below = unfold flatten in tt }), tt)
  group_loop-Layers current p (cat ∷ rest) h k s =
      elim (Bool-cases (is_eq (compare_ℤ cat.priority p))) [
        | inl same ↦ rw same (
            group_loop-Layers (current ++ (cat ∷ [])) p rest
              (All-append _ current (cat ∷ []) h (ground arith, tt)) k.1 s.1)
        | inr changed ↦
            let lower : compare_ℤ cat.priority p ≡ lt = ground (arith, k.0) in
            let rest_lower : All (λ (x : Catalog v c). compare_ℤ x.priority p ≡ lt) rest =
              All-map
                (λ (x : Catalog v c) n.
                  ground (arith, compare_ℤ-IsOrder.chain x.priority cat.priority p))
                rest s.0 in
            rw (changed, group_loop-groups (current ∷ []) (cat ∷ []) cat.priority rest)
              (
                (
                  p,
                  record {
                    same = h;
                    below =
                        rw (flatten-group_loop (cat ∷ []) cat.priority rest) (lower, rest_lower);
                  },
                ),
                group_loop-Layers (cat ∷ []) cat.priority rest
                    (IsOrder-refl compare_ℤ compare_ℤ-IsOrder cat.priority, tt) s.0 s.1,
              )
      ]

  group_sorted-Layers :
      (sorted : List (Catalog v c))
      → IsSorted (by_priority_desc v c) sorted
      → Layers (group_sorted v c sorted) × (flatten (group_sorted v c sorted) ≡ sorted)
  unfolding group_sorted
  group_sorted-Layers [] s = (tt, unfold flatten in refl)
  group_sorted-Layers (first ∷ rest) s = (
    group_loop-Layers [] first.priority (first ∷ rest) tt (IsOrder-refl-ne first.priority, s.0) s,
    flatten-group_loop [] first.priority (first ∷ rest),
  )

  -- The groups hold the sorted catalogs, in layers of falling priority.
  pub group_by_priority-Layers :
      (catalogs : List (Catalog v c))
      → Layers (group_by_priority v c catalogs)
        × (flatten (group_by_priority v c catalogs) ≡ sort_func (by_priority_desc v c) catalogs)
  unfolding group_by_priority
  group_by_priority-Layers catalogs =
      group_sorted-Layers (sort_func (by_priority_desc v c) catalogs)
        (sort_func-IsSorted (by_priority_desc v c) by_priority_desc-IsOrder catalogs)
