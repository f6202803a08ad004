-- ===== src/Resolver/Selection.antt =====
-- `selectPackage` picks the one catalog of the highest priority that has the package.
use library_olm.Prelude.{
  ◌≤◌, String, Ordering, lt, eq, gt, ◌≡◌, ◌≢◌, refl, sym, ap, ◌∙◌, Bool, true, false, not, ◌&&◌,
  Option, none, some, List, [], ◌∷◌, ◌++◌, map, ℤ, compare_ℤ, compare_ℤ-IsOrder, is_lt,
  sort_func-perm, All, All-map, arith, Result, ok, err, is_ok, is_err, Result-cases, keep,
  keep-append, keep-All, keep-perm, keep_both-nil, keep_both-nil_right, keep_both_left, length,
  compare_strings, sort_func-length,
}
use mathlib.Core.List.{flatten, append-nil, Perm}
use mathlib.Core.List.Perm
use mathlib.Core.Path.{subst}
use library_olm.Bundle.{SemVer}
use library_olm.Catalog.{Catalogs, Catalog}
use library_olm.Resolver.Select.{
  ResolveError, ambiguous, Match, by_priority_desc, group_matches, first_priority, decide,
  select_in, select_package, group_by_priority,
}
use library_olm.Resolver.Groups.{IsLayer, Layers, group_by_priority-Layers}

abbrev is_ok_result {ℓ} : {E A : Type ℓ} → Result E A → Bool
is_ok_result (ok a) = true
is_ok_result (err e) = false

abbrev is_gt : Ordering → Bool
is_gt gt = true
is_gt _ = false

module _ (v : SemVer) (c : Catalogs v) (package_name : String) where
  open c use {Graph, Error}

  -- The catalog has the package.
  pub has : Catalog v c → Bool
  has cat = is_ok_result (cat.get_package package_name)

  abbrev at_least : ℤ → Catalog v c → Bool
  at_least p cat = not (is_lt (compare_ℤ cat.priority p))

  abbrev above : ℤ → Catalog v c → Bool
  above p cat = is_gt (compare_ℤ cat.priority p)

  -- The catalogs that have the package, at priority p or above, and above p.
  pub holders_from : ℤ → List (Catalog v c) → List (Catalog v c)
  holders_from p cats = keep (λ cat. has cat && at_least p cat) cats

  pub holders_above : ℤ → List (Catalog v c) → List (Catalog v c)
  holders_above p cats = keep (λ cat. has cat && above p cat) cats

  -- What a selection says of the catalogs.
  abbrev pub IsSelection :
      List (Catalog v c) → Result (ResolveError Error) (Option (Match v c)) → Type 0
  IsSelection cats (ok none) = keep has cats ≡ []
  IsSelection cats (ok (some (cat, pkg))) =
      (cat.get_package package_name ≡ ok pkg) × Perm (holders_from cat.priority cats) (cat ∷ [])
  IsSelection cats (err (ambiguous name p names)) =
      (name ≡ package_name)
      × (2 ≤ length names)
      × (holders_above p cats ≡ [])
      × Perm names (map (λ (cat : Catalog v c). cat.name) (holders_from p cats))
  IsSelection cats (err _) = ⊥

  -- The matches of a group are its catalogs that have the package.
  map-group_matches :
      (g : List (Catalog v c))
      → map (λ (m : Match v c). m.0) (group_matches v c package_name g) ≡ keep has g
  unfolding group_matches keep has
  map-group_matches [] = refl
  map-group_matches (cat ∷ g) = ground (arith, map-group_matches g)

  group_matches-found :
      (g : List (Catalog v c))
      → All
          (λ (m : Match v c). m.0.get_package package_name ≡ ok m.1)
          (group_matches v c package_name g)
  unfolding group_matches
  group_matches-found [] = tt
  group_matches-found (cat ∷ g) = elim (Result-cases (cat.get_package package_name)) [
    | is_ok pkg e ↦ rw e (e, group_matches-found g)
    | is_err x e ↦ rw e (group_matches-found g)
  ]

  skip :
      (q : Catalog v c → Bool) (g rest : List (Catalog v c))
      → keep has g ≡ []
      → keep (λ cat. has cat && q cat) (g ++ rest) ≡ keep (λ cat. has cat && q cat) rest
  skip q g rest none_here =
      keep-append (λ cat. has cat && q cat) g rest ∙ (rw (keep_both-nil has q g none_here) refl)

  -- A group without a match leaves the selection to the groups behind it.
  IsSelection-skip :
      (g rest : List (Catalog v c)) (r : Result (ResolveError Error) (Option (Match v c)))
      → keep has g ≡ []
      → IsSelection rest r
      → IsSelection (g ++ rest) r
  unfolding holders_from holders_above
  IsSelection-skip g rest (ok none) none_here h = rw (keep-append has g rest, none_here) h
  IsSelection-skip g rest (ok (some (cat, pkg))) none_here h =
      (h.0, rw (skip (at_least cat.priority) g rest none_here) h.1)
  IsSelection-skip g rest (err (ambiguous name p names)) none_here h = (
    h.0,
    h.1,
    rw (skip (above p) g rest none_here) h.2,
    rw (skip (at_least p) g rest none_here) h.3,
  )
  IsSelection-skip g rest (err _) none_here h = absurd h

  -- In the first layer with a match, all the matches are at its priority and no other catalog that
  -- has the package is at it or above.
  module _ (g rest : List (Catalog v c)) (p q : ℤ) (l : IsLayer v c g rest p)
      (same : compare_ℤ q p ≡ eq) where
    level : (cat : Catalog v c) → compare_ℤ cat.priority p ≡ eq → compare_ℤ cat.priority q ≡ eq
    level cat h =
        ground (arith, compare_ℤ-IsOrder.chain cat.priority p q, compare_ℤ-IsOrder.swap q p)

    under : (cat : Catalog v c) → compare_ℤ cat.priority p ≡ lt → compare_ℤ cat.priority q ≡ lt
    under cat h =
        ground (arith, compare_ℤ-IsOrder.chain cat.priority p q, compare_ℤ-IsOrder.swap q p)

    holders_from-layer : holders_from q (g ++ rest) ≡ keep has g
    unfolding holders_from
    holders_from-layer =
        keep-append (λ cat. has cat && at_least q cat) g rest
        ∙ (rw
            (
              keep_both_left has (at_least q) g
                  (All-map (λ cat h. ap (λ o. not (is_lt o)) (level cat h)) g l.same),
              keep_both-nil_right has (at_least q) rest
                  (All-map (λ cat h. ap (λ o. not (is_lt o)) (under cat h)) rest l.below),
            )
            (append-nil (keep has g)))

    holders_above-layer : holders_above q (g ++ rest) ≡ []
    unfolding holders_above
    holders_above-layer =
        keep-append (λ cat. has cat && above q cat) g rest
        ∙ (rw
            (
              keep_both-nil_right has (above q) g
                  (All-map (λ cat h. ap is_gt (level cat h)) g l.same),
              keep_both-nil_right has (above q) rest
                  (All-map (λ cat h. ap is_gt (under cat h)) rest l.below),
            )
            refl)

  abbrev names_of : List (Match v c) → List String
  names_of ms = map (λ (m : Match v c). m.0.name) ms

  names_of-map :
      (ms : List (Match v c))
      → names_of ms ≡ map (λ (cat : Catalog v c). cat.name) (map (λ (m : Match v c). m.0) ms)
  names_of-map [] = refl
  names_of-map (m ∷ ms) = ap (λ ns. m.0.name ∷ ns) (names_of-map ms)

  first_priority-same :
      (g : List (Catalog v c)) (p : ℤ)
      → g ≢ []
      → All (λ (cat : Catalog v c). compare_ℤ cat.priority p ≡ eq) g
      → compare_ℤ (first_priority v c g) p ≡ eq
  first_priority-same [] p h k = absurd (h refl)
  first_priority-same (cat ∷ g) p h k = k.0

  decide-IsSelection :
      (g rest : List (Catalog v c)) (p : ℤ) (ms : List (Match v c))
      (r : Result (ResolveError Error) (Option (Match v c)))
      → IsLayer v c g rest p
      → map (λ (m : Match v c). m.0) ms ≡ keep has g
      → All (λ (m : Match v c). m.0.get_package package_name ≡ ok m.1) ms
      → IsSelection rest r
      → IsSelection (g ++ rest) (decide v c package_name g ms r)
  unfolding decide
  decide-IsSelection g rest p [] r l e f h = IsSelection-skip g rest r (sym e) h
  decide-IsSelection g rest p ((cat, pkg) ∷ []) r l e f h =
      let at : All (λ (x : Catalog v c). compare_ℤ x.priority p ≡ eq) (cat ∷ []) =
        subst (All _) (sym e) (keep-All has _ g l.same) in
      (f.0, rw (holders_from-layer g rest p cat.priority l at.0, ← e) (Perm.refl (cat ∷ [])))
  decide-IsSelection g rest p (m ∷ n ∷ ms) r l e f h =
      let q = first_priority v c g in
      let filled : g ≢ [] = λ none_left. unfold keep in cc in
      let at : compare_ℤ q p ≡ eq = first_priority-same g p filled l.same in
      (
        refl,
        rw (sort_func-length compare_strings (names_of (m ∷ n ∷ ms))) (omega arith),
        holders_above-layer g rest p q l at,
        rw (holders_from-layer g rest p q l at, ← e, ← names_of-map (m ∷ n ∷ ms))
            (sort_func-perm compare_strings (names_of (m ∷ n ∷ ms))),
      )

  select_in-IsSelection :
      (gs : List (List (Catalog v c)))
      → Layers v c gs
      → IsSelection (flatten gs) (select_in v c package_name gs)
  unfolding select_in flatten
  select_in-IsSelection [] l = unfold keep in refl
  select_in-IsSelection (g ∷ gs) l =
      decide-IsSelection g (flatten gs) l.0.0 (group_matches v c package_name g)
        (select_in v c package_name gs) l.0.1 (map-group_matches g) (group_matches-found g)
        (select_in-IsSelection gs l.1)

  nil_of_perm : (ks bs : List (Catalog v c)) → ks ≡ [] → Perm ks bs → bs ≡ []
  nil_of_perm ks bs e s = Perm.eq-nil (Perm.symm (subst (λ l. Perm l bs) e s))

  -- The order in which the catalogs are listed is of no account.
  IsSelection-perm :
      (xs ys : List (Catalog v c)) (r : Result (ResolveError Error) (Option (Match v c)))
      → Perm xs ys
      → IsSelection xs r
      → IsSelection ys r
  unfolding holders_from holders_above
  IsSelection-perm xs ys (ok none) s h = nil_of_perm (keep has xs) (keep has ys) h (keep-perm has s)
  IsSelection-perm xs ys (ok (some (cat, pkg))) s h =
      (h.0, Perm.trans (Perm.symm (keep-perm _ s)) h.1)
  IsSelection-perm xs ys (err (ambiguous name p names)) s h = (
    h.0,
    h.1,
    nil_of_perm (holders_above p xs) (holders_above p ys) h.2 (keep-perm _ s),
    Perm.trans h.3 (Perm.map _ (keep-perm _ s)),
  )
  IsSelection-perm xs ys (err _) s h = absurd h

  -- `selectPackage` returns nothing exactly where no catalog has the package; a catalog with its
  -- package only where that is the one catalog that has the package at its priority or above; and
  -- otherwise the ambiguity at the highest priority that has the package, with the names of all
  -- the catalogs, two at least, that have it there.
  pub select_package-IsSelection :
      (catalogs : List (Catalog v c))
      → IsSelection catalogs (select_package v c catalogs package_name)
  unfolding select_package
  select_package-IsSelection catalogs =
      let (layers, same) = group_by_priority-Layers v c catalogs in
      IsSelection-perm _ catalogs _ (sort_func-perm (by_priority_desc v c) catalogs) (
        subst (λ l. IsSelection l (select_in v c package_name (group_by_priority v c catalogs)))
          same (select_in-IsSelection (group_by_priority v c catalogs) layers))
