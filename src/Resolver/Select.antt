-- ===== src/Resolver/Select.antt =====
-- `selectPackage` and `groupByPriority`
use library_olm.Prelude.{
  String, Ordering, not, Option, none, some, List, [], ◌∷◌, ◌++◌, map, Result, ok, err, ℤ,
  compare_ℤ, is_eq, sort_func, compare_strings, if◌then◌else◌,
}
use library_olm.Bundle.{SemVer}
use library_olm.Catalog.{Catalogs, Catalog}

-- What `Resolve` reports: an error of the store or of an iterator, or the package found in several
-- catalogs at one priority, with their names.
pub data ResolveError (E : Type 0) : Type 0 where
  listing_catalogs : E → ResolveError E
  ambiguous : String → ℤ → List String → ResolveError E
  reading_bundles : E → ResolveError E

module _ (v : SemVer) (c : Catalogs v) where
  open c use {Graph, Error}

  abbrev pub by_priority_desc : Catalog v c → Catalog v c → Ordering
  by_priority_desc a b = compare_ℤ b.priority a.priority

  -- the loop of `groupByPriority` over the sorted catalogs, and the last append
  unfoldable pub group_loop :
      List (List (Catalog v c))
      → List (Catalog v c)
      → ℤ
      → List (Catalog v c)
      → List (List (Catalog v c))
  group_loop groups current current_priority [] = groups ++ (current ∷ [])
  group_loop groups current current_priority (cat ∷ sorted) =
      let changed = not (is_eq (compare_ℤ cat.priority current_priority)) in
      group_loop (if changed then groups ++ (current ∷ []) else groups)
        (if changed then cat ∷ [] else current ++ (cat ∷ []))
        (if changed then cat.priority else current_priority) sorted

  -- `sorted[0].Priority()` starts the loop
  unfoldable pub group_sorted : List (Catalog v c) → List (List (Catalog v c))
  unfolding group_loop
  group_sorted [] = []
  group_sorted (first ∷ rest) = group_loop [] [] first.priority (first ∷ rest)

  unfoldable pub group_by_priority : List (Catalog v c) → List (List (Catalog v c))
  unfolding group_sorted
  group_by_priority catalogs = group_sorted (sort_func by_priority_desc catalogs)

  abbrev pub Match : Type 0
  Match = Catalog v c × Graph

  abbrev pub add_match : Catalog v c → Result Error Graph → List Match → List Match
  add_match cat (ok pkg) matches = (cat, pkg) ∷ matches
  add_match cat (err e) matches = matches

  -- the loop over one group: a catalog whose `GetPackage` fails is skipped
  unfoldable pub group_matches : String → List (Catalog v c) → List Match
  group_matches package_name [] = []
  group_matches package_name (cat ∷ group) =
      add_match cat (cat.get_package package_name) (group_matches package_name group)

  abbrev pub first_priority : List (Catalog v c) → ℤ
  first_priority [] = ℤ.pos 0
  first_priority (cat ∷ group) = cat.priority

  -- What the matches of a group decide; `rest` is the search in the groups behind it. `group[0]`
  -- exists where it is read, since the group has two matches.
  unfoldable pub decide :
      String
      → List (Catalog v c)
      → List Match
      → Result (ResolveError Error) (Option Match)
      → Result (ResolveError Error) (Option Match)
  decide package_name group [] rest = rest
  decide package_name group (m ∷ []) rest = ok (some m)
  decide package_name group (m ∷ n ∷ ms) rest = err (
      ambiguous package_name (first_priority group)
        (sort_func compare_strings (map (λ (x : Match). x.0.name) (m ∷ n ∷ ms))))

  -- the loop over the groups
  unfoldable pub select_in :
      String → List (List (Catalog v c)) → Result (ResolveError Error) (Option Match)
  unfolding decide group_matches
  select_in package_name [] = ok none
  select_in package_name (group ∷ groups) =
      decide package_name group (group_matches package_name group) (select_in package_name groups)

  unfoldable pub select_package :
      List (Catalog v c) → String → Result (ResolveError Error) (Option Match)
  unfolding select_in group_by_priority
  select_package catalogs package_name = select_in package_name (group_by_priority catalogs)
