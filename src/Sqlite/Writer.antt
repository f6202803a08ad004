-- ===== src/Sqlite/Writer.antt =====
-- catalog/v1/sqlite/writer.go: the methods of `contentWriter`, each the SQL statement that it runs.
-- A violated constraint fails the statement; OR IGNORE skips the row for all but a foreign key.
use library_olm.Prelude.{
  ℕ, suc, String, ◌&&◌, not, Option, none, some, List, [], ◌∷◌, ◌++◌, map, any, keep, nat_eq,
  Result, ok, err, ◌>>=◌, if◌then◌else◌, ◌==◌,
}
use library_olm.Bundle.{SemVer}
use library_olm.Catalog.{Writer}
use library_olm.Sqlite.Tables.{
  Parsers, GraphRow, BundleRow, GraphBundle, Successor, PredecessorRange, BundleProperty,
  GraphProperty, Database, WriteError, empty_graph_path, no_graph, invalid_range, not_marshalled,
  unique_violated, foreign_key_violated, not_null_violated, check_violated, query_row, has_catalog,
  is_graph, is_bundle,
}
use library_olm.Sqlite.Keys.{
  graph_path, or_error, last_segment, front_segments, new_bundle, graph_row_id, insert_graph,
  checked_message, bundle_row_id, same_edge,
}

module _ (catalog_name : String) where
  unfoldable pub resolve_graph_id : List String → Database → Result WriteError ℕ
  unfolding graph_path query_row
  resolve_graph_id [] db = err empty_graph_path
  resolve_graph_id (x ∷ xs) db = graph_path (x ∷ xs) >>= λ p.
      or_error (no_graph (x ∷ xs)) (graph_row_id (query_row (is_graph catalog_name p) db.graphs))

  unfoldable pub insert_bundle :
      String → String → String → String → String → Database → Result WriteError Database
  insert_bundle id pkg version release uri db =
      if any (is_bundle catalog_name id) db.bundles
      then ok db
      else if not (has_catalog db catalog_name)
      then err foreign_key_violated
      else ok (record db {
        bundles =
            db.bundles ++ (new_bundle db.next_bundle catalog_name id pkg version release uri ∷ []);
        next_bundle = suc db.next_bundle;
      })

  unfoldable pub create_graph : List String → Database → Result WriteError Database
  unfolding graph_path insert_graph resolve_graph_id
  create_graph [] db = err empty_graph_path
  create_graph (x ∷ []) db = graph_path (x ∷ []) >>= λ p. insert_graph catalog_name x p none db
  create_graph (x ∷ y ∷ ys) db = graph_path (x ∷ y ∷ ys) >>= λ p.
      resolve_graph_id (front_segments x (y ∷ ys)) db >>= λ parent.
      insert_graph catalog_name (last_segment x (y ∷ ys)) p (some parent) db

  -- INSERT … SELECT inserts no row where there is no bundle.
  abbrev pub insert_graph_bundle : ℕ → Option ℕ → Database → Result WriteError Database
  insert_graph_bundle graph none db = ok db
  insert_graph_bundle graph (some bundle) db =
      if any (λ (gb : GraphBundle). nat_eq gb.graph_id graph && nat_eq gb.bundle_id bundle)
        db.graph_bundles
      then err unique_violated
      else ok (record db {
        graph_bundles = db.graph_bundles ++ (record { graph_id = graph; bundle_id = bundle } ∷ []);
      })

  unfoldable pub add_bundle_to_graph : List String → String → Database → Result WriteError Database
  unfolding resolve_graph_id bundle_row_id
  add_bundle_to_graph path bundle_id db = resolve_graph_id path db >>= λ graph.
      insert_graph_bundle graph (bundle_row_id catalog_name bundle_id db) db

  -- INSERT OR IGNORE skips a row with NULL and a row that is there.
  abbrev pub insert_successor : ℕ → Option ℕ → Option ℕ → Database → Database
  insert_successor graph none to db = db
  insert_successor graph (some from) none db = db
  insert_successor graph (some from) (some to) db =
      let row : Successor = record { graph_id = graph; from_bundle_id = from; to_bundle_id = to } in
      if any (same_edge row) db.successors
      then db
      else record db { successors = db.successors ++ (row ∷ []) }

  unfoldable pub add_edge : List String → String → String → Database → Result WriteError Database
  unfolding resolve_graph_id bundle_row_id
  add_edge path from to db = resolve_graph_id path db >>= λ graph. ok (
      insert_successor graph (bundle_row_id catalog_name from db) (bundle_row_id catalog_name to db)
        db)

  abbrev pub insert_range : ℕ → Option ℕ → String → Database → Result WriteError Database
  insert_range graph none range db = err not_null_violated
  insert_range graph (some bundle) range db =
      if any (λ (r : PredecessorRange). nat_eq r.graph_id graph && nat_eq r.bundle_id bundle)
        db.predecessor_ranges
      then err unique_violated
      else ok (record db {
        predecessor_ranges =
            db.predecessor_ranges
            ++ (record { graph_id = graph; bundle_id = bundle; version_range = range } ∷ []);
      })

  unfoldable pub set_graph_deprecation :
      List String → String → Database → Result WriteError Database
  unfolding graph_path
  set_graph_deprecation path message db = graph_path path >>= λ p.
      checked_message (any (is_graph catalog_name p) db.graphs) message (record db {
        graphs =
            map
              (λ (g : GraphRow).
                if is_graph catalog_name p g
                then record g { deprecation_message = some message }
                else g)
              db.graphs;
      })

  unfoldable pub set_bundle_deprecation : String → String → Database → Result WriteError Database
  set_bundle_deprecation bundle_id message db =
      checked_message (any (is_bundle catalog_name bundle_id) db.bundles) message (record db {
        bundles =
            map
              (λ (b : BundleRow).
                if is_bundle catalog_name bundle_id b
                then record b { deprecation_message = some message }
                else b)
              db.bundles;
      })

  module _ (v : SemVer) (p : Parsers v) where
    unfoldable pub add_predecessor_range :
        List String → String → String → Database → Result WriteError Database
    unfolding resolve_graph_id bundle_row_id
    add_predecessor_range path bundle_id range db =
        or_error (invalid_range range) (p.parse_range range) >>= λ _.
        resolve_graph_id path db >>= λ graph.
        insert_range graph (bundle_row_id catalog_name bundle_id db) range db

    unfoldable pub set_bundle_property :
        String → String → p.Value → Database → Result WriteError Database
    set_bundle_property bundle_id key val db = or_error not_marshalled (p.marshal val) >>= λ json.
        if json == ""
        then err check_violated
        else if not (any (is_bundle catalog_name bundle_id) db.bundles)
        then err foreign_key_violated
        else ok (record db {
          bundle_properties =
              keep
                (λ (r : BundleProperty).
                  not
                    (r.catalog_name == catalog_name && (r.bundle_id == bundle_id && r.key == key)))
                db.bundle_properties
              ++ (record {
                catalog_name = catalog_name;
                bundle_id = bundle_id;
                key = key;
                value = json;
              }
                  ∷ []);
        })

    unfoldable pub set_graph_property :
        List String → String → p.Value → Database → Result WriteError Database
    unfolding resolve_graph_id
    set_graph_property path key val db = or_error not_marshalled (p.marshal val) >>= λ json.
        resolve_graph_id path db >>= λ graph.
        if json == ""
        then err check_violated
        else ok (record db {
          graph_properties =
              keep (λ (r : GraphProperty). not (nat_eq r.graph_id graph && r.key == key))
                db.graph_properties
              ++ (record { graph_id = graph; key = key; value = json } ∷ []);
        })

    -- `newContentWriter`
    unfoldable pub content_writer : Writer p.Value WriteError
    unfolding insert_bundle create_graph add_bundle_to_graph add_edge add_predecessor_range
        set_bundle_property set_graph_property set_graph_deprecation set_bundle_deprecation
    content_writer = record {
      Content = Database;
      insert_bundle = insert_bundle;
      create_graph = create_graph;
      add_bundle_to_graph = add_bundle_to_graph;
      add_edge = add_edge;
      add_predecessor_range = add_predecessor_range;
      set_bundle_property = set_bundle_property;
      set_graph_property = set_graph_property;
      set_graph_deprecation = set_graph_deprecation;
      set_bundle_deprecation = set_bundle_deprecation;
    }
