-- ===== src/Resolver/Tests.antt =====
-- Runs of resolution, and the theorems on resolution at them.
use library_olm.Prelude.{
  sort_func, compare_ℤ, contains, ◌↔◌, String, ◌≡◌, refl, none, some, List, [], ◌∷◌, ok, err,
}
use library_olm.Bundle.{Bundle}
use library_olm.Catalog.{Catalog}
use library_olm.Samples.{
  semver, semver-IsPrecedence, masterminds, SampleGraph, catalogs, bundle, catalog,
}
use mathlib.Core.List.{flatten}
use library_olm.Resolver.Config.{
  ResolveConfig, with_masterminds_version_constraint, prefer_non_deprecated, zero_config,
  apply_options, apply_resolve_option,
}
use library_olm.Resolver.Select.{select_package, group_by_priority, by_priority_desc}
use library_olm.Resolver.Walk.{select_graphs, walk_path}
use library_olm.Resolver.Collect.{collect_bundles, sequence}
use library_olm.Resolver.Resolve.{Resolution, resolve}
use library_olm.Resolver.Groups.{Layers, group_by_priority-Layers}
use library_olm.Resolver.Selection.{IsSelection, select_package-IsSelection}
use library_olm.Resolver.Paths.{Descends, walk_path_iff}
use library_olm.Resolver.Distinct.{IsUnion, first_error, sequences, collect_bundles_lem}
use library_olm.Resolver.Results.{IsArranged, resolve-IsArranged}

abbrev two_versions : SampleGraph
two_versions = record {
  bundles = bundle "a1" "a" (1 ∷ []) ∷ bundle "a2" "a" (2 ∷ []) ∷ bundle "a1" "a" (1 ∷ []) ∷ [];
  children = "stable" ∷ [];
}

abbrev stable : SampleGraph
stable = record { bundles = two_versions.bundles; children = [] }

abbrev high : Catalog semver catalogs
high = catalog "high" 7 ("pkg" ∷ []) two_versions

abbrev low : Catalog semver catalogs
low = catalog "low" 3 ("pkg" ∷ []) two_versions

high_selected :
    select_package semver catalogs (low ∷ high ∷ []) "pkg" ≡ ok (some (high, two_versions))
unfolding select_package sort_func compare_ℤ contains
high_selected = refl

abbrev ask_major_two : ResolveConfig semver masterminds
ask_major_two =
    apply_options semver masterminds
      (with_masterminds_version_constraint 2 ∷ prefer_non_deprecated ∷ [])
      (zero_config semver masterminds)

no_error :
    first_error semver catalogs
      (sequences semver catalogs none (select_graphs semver catalogs two_versions []))
    ≡ none
unfolding first_error sequences select_graphs sequence
no_error = refl

resolve-IsArranged_example :
    (r : Resolution semver masterminds catalogs) × (resolve semver masterminds catalogs
        (ok (low ∷ high ∷ []))
        "pkg"
        (with_masterminds_version_constraint 2 ∷ prefer_non_deprecated ∷ [])
      ≡ ok (some r))
    × (r.catalog ≡ high)
    × (r.pkg ≡ two_versions)
    × IsArranged semver masterminds catalogs ask_major_two
        (select_graphs semver catalogs two_versions [])
        r.bundles
unfolding apply_options apply_resolve_option
resolve-IsArranged_example =
    resolve-IsArranged semver masterminds catalogs semver-IsPrecedence (low ∷ high ∷ []) "pkg"
      (with_masterminds_version_constraint 2 ∷ prefer_non_deprecated ∷ []) high two_versions
      high_selected no_error

select_package-IsSelection_example :
    IsSelection semver catalogs "pkg"
      (low ∷ high ∷ [])
      (select_package semver catalogs (low ∷ high ∷ []) "pkg")
select_package-IsSelection_example =
    select_package-IsSelection semver catalogs "pkg" (low ∷ high ∷ [])

collect_bundles_lem_example :
    ((e : String)
      → first_error semver catalogs
          (sequences semver catalogs none (two_versions ∷ two_versions ∷ []))
        ≡ some e
      → collect_bundles semver catalogs (two_versions ∷ two_versions ∷ []) none ≡ err e)
    × (first_error semver catalogs
            (sequences semver catalogs none (two_versions ∷ two_versions ∷ []))
          ≡ none
        → (bundles : List (Bundle semver)) × (collect_bundles semver catalogs
              (two_versions ∷ two_versions ∷ [])
              none
            ≡ ok bundles)
          × IsUnion semver catalogs none (two_versions ∷ two_versions ∷ []) bundles)
collect_bundles_lem_example =
    collect_bundles_lem semver catalogs (two_versions ∷ two_versions ∷ []) none

walk_path_iff_example :
    (walk_path semver catalogs two_versions ("stable" ∷ []) ≡ some stable)
    ↔ Descends semver catalogs two_versions ("stable" ∷ []) stable
walk_path_iff_example = walk_path_iff semver catalogs two_versions stable ("stable" ∷ [])

group_by_priority-Layers_example :
    Layers semver catalogs (group_by_priority semver catalogs (low ∷ high ∷ low ∷ []))
    × (flatten (group_by_priority semver catalogs (low ∷ high ∷ low ∷ []))
        ≡ sort_func (by_priority_desc semver catalogs) (low ∷ high ∷ low ∷ []))
group_by_priority-Layers_example = group_by_priority-Layers semver catalogs (low ∷ high ∷ low ∷ [])
