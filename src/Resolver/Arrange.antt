-- ===== src/Resolver/Arrange.antt =====
-- `filterByConstraint` and `sortBundles`
use library_olm.Prelude.{
  Ordering, lt, eq, gt, Bool, true, false, Option, none, some, List, map, keep, is_some, sort_func,
  then_by,
}
use library_olm.Bundle.{SemVer, Bundle, compare_nvrs, join_dots}
use library_olm.Resolver.Config.{Masterminds}

abbrev pub compare_flags : Bool → Bool → Ordering
compare_flags true true = eq
compare_flags false false = eq
compare_flags true false = gt
compare_flags false true = lt

module _ (v : SemVer) where
  unfoldable pub cmp_version_desc : Bundle v → Bundle v → Ordering
  cmp_version_desc a b = compare_nvrs v b.nvr a.nvr

  unfoldable pub cmp_deprecation : Bundle v → Bundle v → Ordering
  cmp_deprecation a b = compare_flags (is_some a.deprecated) (is_some b.deprecated)

  abbrev pub bundle_order : Bool → Bundle v → Bundle v → Ordering
  bundle_order false a b = cmp_version_desc a b
  bundle_order true a b = then_by (cmp_deprecation a b) (cmp_version_desc a b)

  unfoldable pub sort_bundles : List (Bundle v) → Bool → List (Bundle v)
  sort_bundles bundles prefer_non_deprecated =
      sort_func (bundle_order prefer_non_deprecated) bundles

  module _ (m : Masterminds) where
    open m use {MmVersion, Constraints, check}

    unfoldable pub blang_to_masterminds : v.Version → MmVersion
    blang_to_masterminds version =
        m.new (v.major version) (v.minor version) (v.patch version)
          (join_dots (map v.pr_string (v.pre version))) (join_dots (v.build version))

    abbrev pub satisfies : Constraints → Bundle v → Bool
    satisfies constraint b = check constraint (blang_to_masterminds b.nvr.version)

    unfoldable pub filter_by_constraint : List (Bundle v) → Option Constraints → List (Bundle v)
    filter_by_constraint bundles none = bundles
    filter_by_constraint bundles (some constraint) = keep (satisfies constraint) bundles
