-- ===== src/Resolver/Results.antt =====
-- What `Resolve` returns.
use library_olm.Prelude.{
  String, ◌≡◌, refl, Bool, true, false, Option, none, some, List, [], ◌∷◌, ok, IsDistinct,
  IsDistinct-perm, IsDistinct-keep, All, sort_func-perm, sort_func-IsSorted, sort_func-All,
  IsSorted, IsOrder, IsOrder-then_by, IsOrder-on, IsOrder-reverse, keep-passes, keep, flip, Agrees,
  is_some, arith,
}
use mathlib.Core.List.{Perm}
use mathlib.Core.List.Perm
use library_olm.Bundle.{SemVer, IsPrecedence, Bundle}
use library_olm.Bundle.Order.{compare_nvrs-IsOrder}
use library_olm.Catalog.{Catalogs, Catalog}
use library_olm.Resolver.Config.{
  Masterminds, ResolveConfig, ResolveOption, zero_config, apply_options,
}
use library_olm.Resolver.Select.{select_package}
use library_olm.Resolver.Walk.{select_graphs}
use library_olm.Resolver.Arrange.{
  cmp_version_desc, compare_flags, cmp_deprecation, bundle_order, sort_bundles, satisfies,
  filter_by_constraint,
}
use library_olm.Resolver.Resolve.{Resolution, resolve_graphs, resolve_match, resolve}
use library_olm.Resolver.Distinct.{
  ids, first_error, sequences, IsUnion, yielded, collect_bundles_lem,
}

-- Bundles that are not deprecated come before those that are.
flags_swap : (a b : Bool) → compare_flags b a ≡ flip (compare_flags a b)
flags_swap a b = ground arith

flags_chain : (a b c : Bool) → Agrees (compare_flags a b) (compare_flags b c) (compare_flags a c)
flags_chain a b c = ground arith

compare_flags-IsOrder : IsOrder compare_flags
compare_flags-IsOrder = record { swap = flags_swap; chain = flags_chain }

module _ (v : SemVer) (precedence : IsPrecedence v) where
  cmp_version_desc-IsOrder : IsOrder (cmp_version_desc v)
  unfolding cmp_version_desc
  cmp_version_desc-IsOrder =
      IsOrder-reverse _ (IsOrder-on (λ (b : Bundle v). b.nvr) _ (compare_nvrs-IsOrder v precedence))

  cmp_deprecation-IsOrder : IsOrder (cmp_deprecation v)
  unfolding cmp_deprecation
  cmp_deprecation-IsOrder =
      IsOrder-on (λ (b : Bundle v). is_some b.deprecated) compare_flags compare_flags-IsOrder

  pub bundle_order-IsOrder : (prefer : Bool) → IsOrder (bundle_order v prefer)
  bundle_order-IsOrder false = cmp_version_desc-IsOrder
  bundle_order-IsOrder true = IsOrder-then_by _ _ cmp_deprecation-IsOrder cmp_version_desc-IsOrder

module _ (v : SemVer) (m : Masterminds) (c : Catalogs v) where
  open c use {Graph, Error}

  -- The bundles of an answer: what the iterators yield, once for each id, less what the constraint
  -- refuses, in order.
  pub record IsArranged (cfg : ResolveConfig v m) (graphs : List Graph) (bundles : List (Bundle v))
      : Type 1 where
    pub collected : List (Bundle v)
    pub union : IsUnion v c cfg.from graphs collected
    pub same_bundles : Perm bundles (filter_by_constraint v m collected cfg.constraint)
    pub distinct : IsDistinct (ids v bundles)
    pub allowed :
        (k : m.Constraints)
        → cfg.constraint ≡ some k
        → All (λ (b : Bundle v). satisfies v m k b ≡ true) bundles
    pub sorted : IsSorted (bundle_order v cfg.prefer_non_deprecated_bundles) bundles

  filter_by_constraint-distinct :
      (bs : List (Bundle v)) (constraint : Option m.Constraints)
      → IsDistinct (ids v bs)
      → IsDistinct (ids v (filter_by_constraint v m bs constraint))
  unfolding filter_by_constraint
  filter_by_constraint-distinct bs none h = h
  filter_by_constraint-distinct bs (some k) h =
      IsDistinct-keep (λ (b : Bundle v). b.id) (satisfies v m k) bs h

  filter_by_constraint-allowed :
      (bs : List (Bundle v)) (constraint : Option m.Constraints) (k : m.Constraints)
      → constraint ≡ some k
      → All (λ (b : Bundle v). satisfies v m k b ≡ true) (filter_by_constraint v m bs constraint)
  unfolding filter_by_constraint
  filter_by_constraint-allowed bs none k e = cc
  filter_by_constraint-allowed bs (some j) k e =
      let same : k ≡ j = cc in rw same (keep-passes (satisfies v m j) bs)

  module _ (precedence : IsPrecedence v) (cfg : ResolveConfig v m) where
    arranged :
        (graphs : List Graph) (collected : List (Bundle v))
        → IsUnion v c cfg.from graphs collected
        → IsArranged cfg graphs (
            sort_bundles v
              (filter_by_constraint v m collected cfg.constraint)
              cfg.prefer_non_deprecated_bundles)
    unfolding sort_bundles
    arranged graphs collected u =
        let filtered = filter_by_constraint v m collected cfg.constraint in
        let order = bundle_order v cfg.prefer_non_deprecated_bundles in
        record {
          collected = collected;
          union = u;
          same_bundles = sort_func-perm order filtered;
          distinct =
              IsDistinct-perm (Perm.map _ (Perm.symm (sort_func-perm order filtered)))
                (filter_by_constraint-distinct collected cfg.constraint u.distinct);
          allowed = λ k e.
              sort_func-All order _ filtered
                (filter_by_constraint-allowed collected cfg.constraint k e);
          sorted =
              sort_func-IsSorted order
                (bundle_order-IsOrder v precedence cfg.prefer_non_deprecated_bundles) filtered;
        }

    no_graphs : IsArranged cfg [] []
    no_graphs = record {
      collected = [];
      union = record {
        distinct = tt;
        same_ids = λ i. unfold sequences yielded in refl;
        from_yields = λ P ps. tt;
      };
      same_bundles = filter_nil cfg.constraint;
      distinct = tt;
      allowed = λ k e. tt;
      sorted = tt;
    }
      where
        filter_nil : (k : Option m.Constraints) → Perm [] (filter_by_constraint v m [] k)
        filter_nil none = unfold filter_by_constraint in Perm.nil
        filter_nil (some k) = unfold filter_by_constraint keep in Perm.nil

    resolve_graphs-IsArranged :
        (cat : Catalog v c) (pkg : Graph) (graphs : List Graph)
        → first_error v c (sequences v c cfg.from graphs) ≡ none
        → (r : Resolution v m c) × (resolve_graphs v m c cfg (cat, pkg) graphs ≡ ok r)
          × (r.catalog ≡ cat)
          × (r.pkg ≡ pkg)
          × IsArranged cfg graphs r.bundles
    unfolding resolve_graphs
    resolve_graphs-IsArranged cat pkg [] h =
        (record { catalog = cat; pkg = pkg; bundles = [] }, refl, refl, refl, no_graphs)
    resolve_graphs-IsArranged cat pkg (g ∷ graphs) h =
        let (collected, e, u) = (collect_bundles_lem v c (g ∷ graphs) cfg.from).1 h in
        let bundles =
          sort_bundles v (filter_by_constraint v m collected cfg.constraint)
            cfg.prefer_non_deprecated_bundles in
        (
          record { catalog = cat; pkg = pkg; bundles = bundles },
          rw e refl,
          refl,
          refl,
          arranged (g ∷ graphs) collected u,
        )

  -- Where the store lists its catalogs, `selectPackage` gives one of them for the package, and no
  -- iterator of the graphs asked for yields an error, `Resolve` returns that catalog, its package and the
  -- bundles of those graphs: no id twice, the ids of all that the iterators yield less what the
  -- constraint refuses, sorted by descending version, the deprecated last if that is preferred.
  pub resolve-IsArranged :
      IsPrecedence v
      → (catalogs : List (Catalog v c)) (name : String) (opts : List (ResolveOption v m))
        (cat : Catalog v c) (pkg : Graph)
      → select_package v c catalogs name ≡ ok (some (cat, pkg))
      → let cfg = apply_options v m opts (zero_config v m) in
        let graphs = select_graphs v c pkg cfg.graphs in
        first_error v c (sequences v c cfg.from graphs) ≡ none
        → (r : Resolution v m c) × (resolve v m c (ok catalogs) name opts ≡ ok (some r))
          × (r.catalog ≡ cat)
          × (r.pkg ≡ pkg)
          × IsArranged cfg graphs r.bundles
  unfolding resolve resolve_match
  resolve-IsArranged precedence catalogs name opts cat pkg selected no_error =
      let cfg = apply_options v m opts (zero_config v m) in
      let (r, e, ec, ep, a) =
        resolve_graphs-IsArranged precedence cfg cat pkg (select_graphs v c pkg cfg.graphs)
          no_error in
      (r, rw selected (rw e refl), ec, ep, a)
