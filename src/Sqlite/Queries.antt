-- ===== src/Sqlite/Queries.antt =====
-- catalog/v1/sqlite/query.go: what the queries give of the tables. An iterator is the list of what it
-- yields; that a caller stops it early shortens the list.
use library_olm.Prelude.{
  ℕ, String, Option, none, some, List, [], ◌∷◌, ◌++◌, map, keep, contains, nat_eq, is_some, Result,
  ok, err, ◌>>=◌, wrap_err, if◌then◌else◌, ◌==◌,
}
use library_olm.Bundle.{SemVer, Bundle, Release, parse_release}
use library_olm.Catalog.{BundleIdentity}
use library_olm.Sqlite.Tables.{Parsers, BundleRow, PredecessorRange, Database, has_id, descendants}
use library_olm.Sqlite.Joins.{
  join_bundles, distinct_rows, in_graphs, by_bundle_id, edge_targets, join_ranges,
}
use library_olm.Sqlite.Graphs.{
  QueryError, GraphQuery, query_graph_nodes, query_graph_node, version_not_parsed, range_not_parsed,
  release_panic, graph_not_found,
}

module _ (v : SemVer) (p : Parsers v) where
  abbrev pub or_parse_error : {A : Type 0} → QueryError → Option A → Result QueryError A
  or_parse_error e none = err e
  or_parse_error e (some a) = ok a

  -- a release that is not parsed panics
  unfoldable pub must_parse_release : String → Result QueryError (Release v)
  must_parse_release s = wrap_err (λ _. release_panic s) (parse_release v s)

  unfoldable pub parse_row_version : String → Result QueryError v.Version
  parse_row_version s =
      if s == ""
      then ok p.zero_version
      else or_parse_error (version_not_parsed s) (p.parse_version s)

  unfoldable pub parse_bundle_row : BundleRow → Result QueryError (Bundle v)
  unfolding must_parse_release parse_row_version
  parse_bundle_row b = parse_row_version b.version >>= λ version.
      must_parse_release b.release >>= λ release. ok (record {
        id = b.bundle_id;
        nvr = record { name = b.package_name; version = version; release = release };
        uri = b.uri;
        deprecated = b.deprecation_message;
      })

  unfoldable pub stream_bundle_rows : List BundleRow → List (Result QueryError (Bundle v))
  unfolding parse_bundle_row
  stream_bundle_rows rows = map parse_bundle_row rows

  unfoldable pub query_bundles_direct : Database → ℕ → List (Result QueryError (Bundle v))
  unfolding join_bundles stream_bundle_rows
  query_bundles_direct db graph_id =
      stream_bundle_rows (by_bundle_id (join_bundles db (in_graphs (λ g. nat_eq g graph_id) db)))

  unfoldable pub query_bundles_descendant : Database → ℕ → List (Result QueryError (Bundle v))
  unfolding join_bundles distinct_rows stream_bundle_rows
  query_bundles_descendant db graph_id = stream_bundle_rows (
      by_bundle_id
        (distinct_rows [] (join_bundles db (in_graphs (has_id (descendants db graph_id)) db))))

  -- the loop over the explicit rows, with the bundle ids that it has seen
  unfoldable pub explicit_ids : List BundleRow → List String → List String
  explicit_ids [] seen = seen
  explicit_ids (b ∷ bs) seen = explicit_ids bs (b.bundle_id ∷ seen)

  -- the loop over the rows with ranges
  unfoldable pub range_loop :
      v.Version → List (BundleRow × String) → List String → List (Result QueryError (Bundle v))
  unfolding parse_bundle_row
  range_loop version [] seen = []
  range_loop version ((b, range) ∷ rows) seen =
      let skipped = range_loop version rows seen in
      let taken = range_loop version rows (b.bundle_id ∷ seen) in
      if contains seen b.bundle_id then skipped else elim (p.parse_range range) [
        | none ↦ err (range_not_parsed range) ∷ skipped
        | some matches ↦ if matches version then parse_bundle_row b ∷ taken else skipped
      ]

  unfoldable pub query_successors_streaming :
      List BundleRow → List (BundleRow × String) → v.Version → List (Result QueryError (Bundle v))
  unfolding stream_bundle_rows explicit_ids range_loop
  query_successors_streaming explicit ranged version =
      stream_bundle_rows explicit ++ range_loop version ranged (explicit_ids explicit [])

  -- `(SELECT id FROM content_bundles WHERE bundle_id = ?)`, without the catalog's name
  unfoldable pub from_row : Database → String → Option ℕ
  from_row db from_id =
      p.first_row (
        map (λ (b : BundleRow). b.id) (keep (λ (b : BundleRow). b.bundle_id == from_id) db.bundles))

  unfoldable pub query_successors_direct :
      Database → ℕ → BundleIdentity v → List (Result QueryError (Bundle v))
  unfolding query_successors_streaming from_row join_bundles join_ranges
  query_successors_direct db graph_id from =
      query_successors_streaming
        (join_bundles db (edge_targets (λ g. nat_eq g graph_id) (from_row db from.id) db))
        (join_ranges db
          (keep (λ (r : PredecessorRange). nat_eq r.graph_id graph_id) db.predecessor_ranges))
        from.nvr.version

  unfoldable pub query_successors_descendant :
      Database → ℕ → BundleIdentity v → List (Result QueryError (Bundle v))
  unfolding query_successors_streaming from_row join_bundles distinct_rows join_ranges
  query_successors_descendant db graph_id from =
      query_successors_streaming
        (distinct_rows [] (
          join_bundles db
            (edge_targets (has_id (descendants db graph_id)) (from_row db from.id) db)))
        (join_ranges db (
          keep (λ (r : PredecessorRange). has_id (descendants db graph_id) r.graph_id)
            db.predecessor_ranges))
        from.nvr.version

  -- `ListBundles` and `Successors` of a leaf and of a composite graph
  unfoldable pub list_bundles : Database → GraphQuery → List (Result QueryError (Bundle v))
  unfolding query_bundles_direct query_bundles_descendant
  list_bundles db g =
      if is_some g.graph_path
      then query_bundles_descendant db g.graph_id
      else query_bundles_direct db g.graph_id

  unfoldable pub successors :
      Database → GraphQuery → BundleIdentity v → List (Result QueryError (Bundle v))
  unfolding query_successors_direct query_successors_descendant
  successors db g from =
      if is_some g.graph_path
      then query_successors_descendant db g.graph_id from
      else query_successors_direct db g.graph_id from

abbrev pub list_graphs_at : Database → GraphQuery → Option (List String) → List GraphQuery
list_graphs_at db g none = []
list_graphs_at db g (some path) = query_graph_nodes db g.catalog_name (some g.graph_id) "" path

-- `ListGraphs` of a composite graph
unfoldable pub list_graphs : Database → GraphQuery → List GraphQuery
unfolding query_graph_nodes
list_graphs db g = list_graphs_at db g g.graph_path

-- `GetGraph`, with the assertion to a composite graph
abbrev pub get_graph :
    Database → GraphQuery → Option (List String) → Option (String → Result QueryError GraphQuery)
get_graph db g none = none
get_graph db g (some path) = some (λ name.
    query_graph_node db g.catalog_name (some g.graph_id) name path (graph_not_found name path))
