-- ===== src/Sqlite/Tests.antt =====
-- The theorems on catalog/v1/sqlite at concrete databases.
use library_olm.Prelude.{◌<◌, ◌≤◌, All}
use library_olm.Prelude.{
  IsDistinct, any, not, map, ◌≢◌, ℕ, String, true, ◌&&◌, Option, none, some, List, [], ◌∷◌, ◌++◌, ℤ,
  has_char, join, split, ok, ◌>>=◌, ◌≡◌, ◌↔◌, refl, arith,
}
use library_olm.Samples.{semver, parsers}
use library_olm.Sqlite.Tables.{
  BundleRow, query_row, Database, GraphRow, has_id, descend, descendants,
}
use library_olm.Sqlite.Resolving.{resolve_graph_id-create_graph}
use library_olm.Sqlite.Succession.{
  query_successors_streaming_lem, has_bundle_id, is_in_range, IsOfRange,
}
use library_olm.Sqlite.Queries.{query_successors_streaming, stream_bundle_rows}
use library_olm.Sqlite.Writer.{create_graph, resolve_graph_id}
use library_olm.Sqlite.Keys.{insert_graph, graph_path, check_segments, slash}
use library_olm.Sqlite.Store.{label_catalog_name}
use library_olm.Sqlite.Migrations.{Schema, open_store}
use library_olm.Sqlite.Paths.{split-graph_path}
use library_olm.Sqlite.Reopening.{open_store-open_store}
use library_olm.Sqlite.Rounds.{found_by_round}
use library_olm.Sqlite.Descent.{IsForest, Below, descendants_iff}

abbrev graph_row : ℕ → String → String → Option ℕ → GraphRow
graph_row id name path parent = record {
  id = id;
  catalog_name = "b";
  name = name;
  path = path;
  parent_id = parent;
  deprecation_message = none;
}

-- The catalog b, with a graph in a graph in a graph.
abbrev pub sample_database : Database
sample_database = record {
  metadata = record { name = "b"; uri = "u"; digest = "d"; priority = ℤ.pos 0 } ∷ [];
  labels = record { catalog_name = "b"; key = label_catalog_name; value = "b" } ∷ [];
  graphs =
      graph_row 1 "p" "p" none
      ∷ graph_row 2 "c" "p/c" (some 1)
      ∷ graph_row 3 "x" "p/c/x" (some 2)
      ∷ [];
  bundles = [];
  graph_bundles = [];
  successors = [];
  predecessor_ranges = [];
  bundle_properties = [];
  graph_properties = [];
  next_graph = 4;
  next_bundle = 1;
}

pub sample_database-IsForest : IsForest sample_database
sample_database-IsForest = (
  (omega arith, λ i h. absurd (ground arith)),
  ((omega arith, λ i h. ground arith), ((omega arith, λ i h. ground arith), tt)),
)

descendants_iff_example :
    ((n : ℕ) → 4 < n → found_by_round n sample_database.graphs (1 ∷ []) ≡ [])
    × ((n : ℕ) → 4 ≤ n → descend n sample_database.graphs (1 ∷ []) ≡ descendants sample_database 1)
    × ((j : ℕ)
        → (has_id (descendants sample_database 1) j ≡ true) ↔ Below sample_database.graphs 1 j)
descendants_iff_example = descendants_iff sample_database sample_database-IsForest 1

split-graph_path_example : split slash "p/c" ≡ "p" ∷ "c" ∷ []
split-graph_path_example = split-graph_path "p" ("c" ∷ []) "p/c" path_of
  where
    path_of : graph_path ("p" ∷ "c" ∷ []) ≡ ok "p/c"
    path_of = unfold graph_path check_segments has_char join in refl

abbrev new_file : Schema
new_file = record {
  metadata_table = true;
  metadata_version = some 2;
  migrations_run = [];
  content_tables = "content_schema_version" ∷ "content_graphs" ∷ [];
  content_version = some 5;
  database = sample_database;
}

open_store-open_store_example : (open_store new_file >>= open_store) ≡ open_store new_file
open_store-open_store_example = open_store-open_store new_file

abbrev pub imported_database : Database
imported_database = record sample_database {
  metadata =
      record { name = "a"; uri = "u"; digest = ""; priority = ℤ.pos 0 } ∷ sample_database.metadata;
}

abbrev created_database : Database
created_database = record imported_database {
  graphs =
      sample_database.graphs
      ++ (record {
        id = 4;
        catalog_name = "b";
        name = "d";
        path = "p/d";
        parent_id = some 1;
        deprecation_message = none;
      }
          ∷ []);
  next_graph = 5;
}

resolve_graph_id-create_graph_example :
    (resolve_graph_id "b" ("p" ∷ "d" ∷ []) created_database ≡ ok 4)
    × ((other : List String)
        → other ≢ ("p" ∷ "d" ∷ [])
        → resolve_graph_id "b" other created_database
          ≡ resolve_graph_id "b" other imported_database)
resolve_graph_id-create_graph_example =
    resolve_graph_id-create_graph "b" "p" ("d" ∷ []) imported_database created_database (
      unfold create_graph resolve_graph_id insert_graph graph_path check_segments query_row has_char
        join in
      refl)

abbrev sample_row : String → BundleRow
sample_row id = record {
  id = 1;
  catalog_name = "b";
  bundle_id = id;
  package_name = "p";
  version = "1";
  release = "";
  uri = "";
  deprecation_message = none;
}

abbrev sample_ranged : List (BundleRow × String)
sample_ranged = (sample_row "p.v1", "1") ∷ (sample_row "p.v2", "1") ∷ (sample_row "p.v2", "1") ∷ []

query_successors_streaming_lem_example :
    (rows : List BundleRow) × (query_successors_streaming semver parsers
        (sample_row "p.v1" ∷ [])
        sample_ranged
        (1 ∷ [])
      ≡ stream_bundle_rows semver parsers (sample_row "p.v1" ∷ [])
        ++ stream_bundle_rows semver parsers rows)
    × All (IsOfRange semver parsers (1 ∷ []) sample_ranged) rows
    × ((id : String)
        → any (has_bundle_id id) rows ≡ (
            any
              (λ (row : BundleRow × String).
                is_in_range semver parsers (1 ∷ []) row && has_bundle_id id row.0)
              sample_ranged
            && not (any (has_bundle_id id) (sample_row "p.v1" ∷ []))))
    × IsDistinct (map (λ (b : BundleRow). b.bundle_id) rows)
query_successors_streaming_lem_example =
    query_successors_streaming_lem semver parsers (sample_row "p.v1" ∷ []) sample_ranged (1 ∷ [])
      (refl, (refl, (refl, tt)))
