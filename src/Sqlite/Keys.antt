-- ===== src/Sqlite/Keys.antt =====
-- catalog/v1/sqlite/writer.go: the paths of graphs as keys, and the rows that the methods insert.
use Prim.Native.Char.{Char}
use library_olm.Prelude.{
  ℕ, suc, String, Bool, ◌||◌, ◌&&◌, not, Option, none, some, List, [], ◌∷◌, ◌++◌, any, has_char,
  join, nat_eq, Result, ok, err, ◌>>=◌, if◌then◌else◌, ◌==◌,
}
use library_olm.Sqlite.Tables.{
  GraphRow, BundleRow, Successor, Database, WriteError, invalid_segment, unique_violated,
  foreign_key_violated, check_violated, query_row, has_catalog, is_graph, is_bundle,
}

abbrev pub slash : Char
slash = "/"

-- the check of a segment in `graphPath`
abbrev pub is_bad_segment : String → Bool
is_bad_segment seg = seg == "" || has_char slash seg

unfoldable pub check_segments : List String → Result WriteError Unit
check_segments [] = ok tt
check_segments (seg ∷ path) =
    let rest = check_segments path in if is_bad_segment seg then err (invalid_segment seg) else rest

unfoldable pub graph_path : List String → Result WriteError String
unfolding check_segments
graph_path path = check_segments path >>= λ _. ok (join slash path)

abbrev pub or_error {ℓ} : {A E : Type ℓ} → E → Option A → Result E A
or_error e none = err e
or_error e (some a) = ok a

-- `path[len(path)-1]` and `path[:len(path)-1]` of a path that is not empty
abbrev pub last_segment : String → List String → String
last_segment x [] = x
last_segment x (y ∷ ys) = last_segment y ys

abbrev pub front_segments : String → List String → List String
front_segments x [] = []
front_segments x (y ∷ ys) = x ∷ front_segments y ys

abbrev pub new_graph : ℕ → String → String → String → Option ℕ → GraphRow
new_graph id catalog name path parent = record {
  id = id;
  catalog_name = catalog;
  name = name;
  path = path;
  parent_id = parent;
  deprecation_message = none;
}

abbrev pub new_bundle : ℕ → String → String → String → String → String → String → BundleRow
new_bundle id catalog bundle_id pkg version release uri = record {
  id = id;
  catalog_name = catalog;
  bundle_id = bundle_id;
  package_name = pkg;
  version = version;
  release = release;
  uri = uri;
  deprecation_message = none;
}

-- The id of a row, NULL as none.
abbrev pub graph_row_id : Option GraphRow → Option ℕ
graph_row_id none = none
graph_row_id (some g) = some g.id

abbrev pub row_id : Option BundleRow → Option ℕ
row_id none = none
row_id (some b) = some b.id

-- INSERT into content_graphs
unfoldable pub insert_graph :
    String → String → String → Option ℕ → Database → Result WriteError Database
insert_graph catalog name path parent db =
    if any (is_graph catalog path) db.graphs
    then err unique_violated
    else if not (has_catalog db catalog)
    then err foreign_key_violated
    else ok (record db {
      graphs = db.graphs ++ (new_graph db.next_graph catalog name path parent ∷ []);
      next_graph = suc db.next_graph;
    })

-- CHECK(deprecation_message IS NULL OR length(deprecation_message) > 0), where a row is updated
abbrev pub checked_message : Bool → String → Database → Result WriteError Database
checked_message updates message db = if updates && message == "" then err check_violated else ok db

unfoldable pub bundle_row_id : String → String → Database → Option ℕ
unfolding query_row
bundle_row_id catalog bundle db = row_id (query_row (is_bundle catalog bundle) db.bundles)

abbrev pub same_edge : Successor → Successor → Bool
same_edge s t =
    nat_eq s.graph_id t.graph_id
    && (nat_eq s.from_bundle_id t.from_bundle_id && nat_eq s.to_bundle_id t.to_bundle_id)
