-- ===== src/Sqlite/Graphs.antt =====
-- catalog/v1/sqlite/query.go: the queries for graphs and for properties.
use library_olm.Prelude.{
  ℕ, String, Bool, true, ◌&&◌, not, Option, none, some, List, [], ◌∷◌, ◌++◌, map, any, keep,
  sort_func, compare_strings, nat_eq, is_some, Result, ok, err, if◌then◌else◌, ◌==◌,
}
use library_olm.Sqlite.Tables.{
  GraphRow, BundleProperty, GraphProperty, Database, query_row, is_parent,
}

-- An error that a query yields, or a panic of `MustParseRelease`.
pub data QueryError : Type 0 where
  version_not_parsed : String → QueryError
  range_not_parsed : String → QueryError
  release_panic : String → QueryError
  graph_not_found : String → List String → QueryError
  package_not_found : String → QueryError

-- `graphQuery` and `compositeGraphQuery`, with the message that makes the deprecated variants.
pub record GraphQuery : Type 0 where
  pub catalog_name : String
  pub graph_id : ℕ
  pub graph_name : String
  -- the path of a composite graph
  pub graph_path : Option (List String)
  pub deprecation : Option String

-- `WHERE g.parent_id IS NULL AND g.catalog_name = ?` or `WHERE g.parent_id = ?`
abbrev pub under : String → Option ℕ → GraphRow → Bool
under catalog none g = not (is_some g.parent_id) && g.catalog_name == catalog
under catalog (some parent) g = is_parent parent g.parent_id

abbrev pub is_named : String → GraphRow → Bool
is_named name g = if name == "" then true else g.name == name

-- `newGraphQuery` and `newCompositeGraphQuery`
abbrev pub graph_of_row : Database → String → List String → GraphRow → GraphQuery
graph_of_row db catalog parent_path g = record {
  catalog_name = catalog;
  graph_id = g.id;
  graph_name = g.name;
  graph_path =
      if any (λ (c : GraphRow). is_parent g.id c.parent_id) db.graphs
      then some (parent_path ++ (g.name ∷ []))
      else none;
  deprecation = g.deprecation_message;
}

unfoldable pub query_graph_nodes :
    Database → String → Option ℕ → String → List String → List GraphQuery
query_graph_nodes db catalog parent name parent_path = map (graph_of_row db catalog parent_path) (
    sort_func (λ (g h : GraphRow). compare_strings g.name h.name)
      (keep (λ (g : GraphRow). under catalog parent g && is_named name g) db.graphs))

abbrev pub first_graph : QueryError → List GraphQuery → Result QueryError GraphQuery
first_graph e [] = err e
first_graph e (g ∷ gs) = ok g

unfoldable pub query_graph_node :
    Database → String → Option ℕ → String → List String → QueryError → Result QueryError GraphQuery
unfolding query_graph_nodes
query_graph_node db catalog parent name parent_path missing =
    first_graph missing (query_graph_nodes db catalog parent name parent_path)

unfoldable pub query_graph_property : Database → ℕ → String → Option String
unfolding query_row
query_graph_property db graph_id key = value (
    query_row (λ (r : GraphProperty). nat_eq r.graph_id graph_id && r.key == key)
      db.graph_properties)
  where
    value : Option GraphProperty → Option String
    value none = none
    value (some r) = some r.value

-- `bundleRow.Property`
unfoldable pub query_bundle_property : Database → String → String → String → Option String
unfolding query_row
query_bundle_property db catalog bundle_id key = value (
    query_row
      (λ (r : BundleProperty).
        r.catalog_name == catalog && (r.bundle_id == bundle_id && r.key == key))
      db.bundle_properties)
  where
    value : Option BundleProperty → Option String
    value none = none
    value (some r) = some r.value
