-- ===== src/Resolver/Resolve.antt =====
-- `Resolve`
use library_olm.Prelude.{String, Option, none, some, List, [], ◌∷◌, Result, ok, ◌>>=◌, wrap_err}
use library_olm.Bundle.{SemVer, Bundle}
use library_olm.Catalog.{Catalogs, Catalog}
use library_olm.Resolver.Config.{
  Masterminds, ResolveConfig, ResolveOption, zero_config, apply_options,
}
use library_olm.Resolver.Select.{
  ResolveError, listing_catalogs, reading_bundles, Match, select_package,
}
use library_olm.Resolver.Walk.{select_graphs}
use library_olm.Resolver.Collect.{collect_bundles}
use library_olm.Resolver.Arrange.{filter_by_constraint, sort_bundles}

module _ (v : SemVer) (m : Masterminds) (c : Catalogs v) where
  open c use {Graph, Error}

  pub record Resolution : Type 0 where
    pub catalog : Catalog v c
    pub pkg : Graph
    pub bundles : List (Bundle v)

  -- from the graphs on; no graph at all gives no bundles
  unfoldable pub resolve_graphs :
      ResolveConfig v m → Match v c → List Graph → Result (ResolveError Error) Resolution
  resolve_graphs cfg (cat, pkg) [] = ok (record { catalog = cat; pkg = pkg; bundles = [] })
  resolve_graphs cfg (cat, pkg) (g ∷ graphs) =
      wrap_err reading_bundles (collect_bundles v c (g ∷ graphs) cfg.from) >>= λ bundles.
      ok (record {
        catalog = cat;
        pkg = pkg;
        bundles =
            sort_bundles v (filter_by_constraint v m bundles cfg.constraint)
              cfg.prefer_non_deprecated_bundles;
      })

  -- `nil, nil` where no catalog has the package
  unfoldable pub resolve_match :
      ResolveConfig v m → Option (Match v c) → Result (ResolveError Error) (Option Resolution)
  unfolding resolve_graphs
  resolve_match cfg none = ok none
  resolve_match cfg (some (cat, pkg)) =
      resolve_graphs cfg (cat, pkg) (select_graphs v c pkg cfg.graphs) >>= λ r. ok (some r)

  -- `listed` is the result of `reader.List()`.
  unfoldable pub resolve :
      Result Error (List (Catalog v c))
      → String
      → List (ResolveOption v m)
      → Result (ResolveError Error) (Option Resolution)
  unfolding resolve_match
  resolve listed package_name opts =
      let cfg = apply_options v m opts (zero_config v m) in
      wrap_err listing_catalogs listed >>= λ catalogs.
      select_package v c catalogs package_name >>= λ found. resolve_match cfg found
