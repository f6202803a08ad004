-- ===== src/Sqlite/Deletion.antt =====
-- `deleteAll` of catalog/v1/sqlite/writer.go and `Delete` of sqlite.go, with the rows that the tables
-- cascade to.
use library_olm.Prelude.{ℕ, String, Bool, ◌||◌, not, List, ◌++◌, map, keep, ◌==◌}
use library_olm.Sqlite.Tables.{
  MetadataRow, LabelRow, GraphRow, BundleRow, GraphBundle, Successor, PredecessorRange,
  BundleProperty, GraphProperty, Database, has_id, descend,
}

-- The rows that ON DELETE CASCADE removes with graphs and bundles.
abbrev pub row_ids : (BundleRow → Bool) → List BundleRow → List ℕ
row_ids is_in rows = map (λ (b : BundleRow). b.id) (keep is_in rows)

unfoldable pub doomed_graphs : Database → String → List ℕ
unfolding descend
doomed_graphs db name =
    let own =
      map (λ (g : GraphRow). g.id) (keep (λ (g : GraphRow). g.catalog_name == name) db.graphs) in
    own ++ descend db.next_graph db.graphs own

unfoldable pub delete_graphs : String → Database → Database
unfolding doomed_graphs
delete_graphs name db =
    let ids = doomed_graphs db name in
    record db {
      graphs = keep (λ (g : GraphRow). not (has_id ids g.id)) db.graphs;
      graph_bundles = keep (λ (r : GraphBundle). not (has_id ids r.graph_id)) db.graph_bundles;
      successors = keep (λ (r : Successor). not (has_id ids r.graph_id)) db.successors;
      predecessor_ranges =
          keep (λ (r : PredecessorRange). not (has_id ids r.graph_id)) db.predecessor_ranges;
      graph_properties =
          keep (λ (r : GraphProperty). not (has_id ids r.graph_id)) db.graph_properties;
    }

unfoldable pub delete_bundles : String → Database → Database
delete_bundles name db =
    let ids = row_ids (λ (b : BundleRow). b.catalog_name == name) db.bundles in
    record db {
      bundles = keep (λ (b : BundleRow). not (b.catalog_name == name)) db.bundles;
      graph_bundles = keep (λ (r : GraphBundle). not (has_id ids r.bundle_id)) db.graph_bundles;
      successors =
          keep (λ (r : Successor). not (has_id ids r.from_bundle_id || has_id ids r.to_bundle_id))
            db.successors;
      predecessor_ranges =
          keep (λ (r : PredecessorRange). not (has_id ids r.bundle_id)) db.predecessor_ranges;
      bundle_properties =
          keep (λ (r : BundleProperty). not (r.catalog_name == name)) db.bundle_properties;
    }

-- `contentWriter.deleteAll`
unfoldable pub delete_all : String → Database → Database
unfolding delete_graphs delete_bundles
delete_all name db = delete_bundles name (delete_graphs name db)

-- `Delete`: the cascade is that of labels, graphs and bundles.
unfoldable pub delete_catalog : String → Database → Database
unfolding delete_all
delete_catalog name db =
    let rest = delete_all name db in
    record rest {
      metadata = keep (λ (m : MetadataRow). not (m.name == name)) rest.metadata;
      labels = keep (λ (r : LabelRow). not (r.catalog_name == name)) rest.labels;
    }
