-- ===== src/Sqlite/Catalogs.antt =====
-- catalog/v1/sqlite: the graphs and catalogs of a database as values of the interfaces of
-- catalog/v1/catalog.go, which resolution takes.
use library_olm.Prelude.{String, none, [], map, List}
use library_olm.Bundle.{SemVer}
use library_olm.Catalog.{Catalogs, Catalog}
use library_olm.Sqlite.Tables.{Parsers, Database}
use library_olm.Sqlite.Queries.{list_bundles, successors, get_graph}
use library_olm.Sqlite.Graphs.{
  GraphQuery, QueryError, package_not_found, query_graph_node, query_graph_nodes,
}
use library_olm.Sqlite.Store.{StoredCatalog, list_catalogs}

-- `ListPackages` and `GetPackage` of a catalog
unfoldable pub list_packages : Database → String → List GraphQuery
unfolding query_graph_nodes
list_packages db name = query_graph_nodes db name none "" []

module _ (v : SemVer) (p : Parsers v) (db : Database) where
  unfoldable pub sqlite_catalogs : Catalogs v
  unfolding list_bundles successors
  sqlite_catalogs = record {
    Graph = GraphQuery;
    Error = QueryError;
    list_bundles = list_bundles v p db;
    successors = successors v p db;
    composite = λ g. get_graph db g g.graph_path;
  }

  unfoldable pub sqlite_catalog : StoredCatalog → Catalog v sqlite_catalogs
  unfolding sqlite_catalogs query_graph_node
  sqlite_catalog cat = record {
    name = cat.name;
    priority = cat.priority;
    get_package = λ name. query_graph_node db cat.name none name [] (package_not_found name);
  }

  unfoldable pub sqlite_list : List (Catalog v sqlite_catalogs)
  unfolding sqlite_catalog list_catalogs
  sqlite_list = map sqlite_catalog (list_catalogs db)
