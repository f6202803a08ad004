-- ===== src/Resolver/Collect.antt =====
-- `collectBundles`
use library_olm.Prelude.{
  String, Option, none, some, List, [], ◌∷◌, ◌++◌, Result, ok, err, ◌>>=◌, contains, if◌then◌else◌,
}
use library_olm.Bundle.{SemVer, Bundle}
use library_olm.Catalog.{Catalogs, BundleIdentity}

module _ (v : SemVer) where
  -- The map `seen` and the slice `result`.
  pub record Collected : Type 0 where
    pub seen : List String
    pub result : List (Bundle v)

  unfoldable pub add_bundle : Bundle v → Collected → Collected
  add_bundle b s =
      if contains s.seen b.id
      then s
      else record { seen = b.id ∷ s.seen; result = s.result ++ (b ∷ []) }

module _ (v : SemVer) (c : Catalogs v) where
  open c use {Graph, Error, list_bundles, successors}

  -- the inner loop, over what one iterator yields
  unfoldable pub collect_seq :
      List (Result Error (Bundle v)) → Collected v → Result Error (Collected v)
  unfolding add_bundle
  collect_seq [] s = ok s
  collect_seq (err e ∷ seq) s = err e
  collect_seq (ok b ∷ seq) s = collect_seq seq (add_bundle v b s)

  unfoldable pub sequence : Option (BundleIdentity v) → Graph → List (Result Error (Bundle v))
  sequence none g = list_bundles g
  sequence (some from) g = successors g from

  -- the outer loop, over the graphs
  unfoldable pub collect_graphs :
      Option (BundleIdentity v) → List Graph → Collected v → Result Error (Collected v)
  unfolding collect_seq sequence
  collect_graphs from [] s = ok s
  collect_graphs from (g ∷ graphs) s =
      collect_seq (sequence from g) s >>= λ s'. collect_graphs from graphs s'

  unfoldable pub collect_bundles :
      List Graph → Option (BundleIdentity v) → Result Error (List (Bundle v))
  unfolding collect_graphs
  collect_bundles graphs from =
      collect_graphs from graphs (record { seen = []; result = [] }) >>= λ s. ok s.result
