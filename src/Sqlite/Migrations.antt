-- ===== src/Sqlite/Migrations.antt =====
-- catalog/v1/sqlite/metadata.go, content.go and `OpenStore` of sqlite.go: the versions of the tables,
-- the migrations, and what opening a store keeps. The SQL of a migration is its version.
use library_olm.Prelude.{
  ℕ, String, Bool, true, false, Option, none, some, List, [], ◌∷◌, ◌++◌, map, all, keep, contains,
  ltb, nat_eq, Result, ok, err, ◌>>=◌, if◌then◌else◌,
}
use library_olm.Sqlite.Tables.{Database, MetadataRow}

-- The version that the table of versions has, none where it has no row; the migrations that were run;
-- the tables whose names match 'content_%', and the version of the content.
pub record Schema : Type 0 where
  pub metadata_table : Bool
  pub metadata_version : Option ℕ
  pub migrations_run : List ℕ
  pub content_tables : List String
  pub content_version : Option ℕ
  pub database : Database

pub data OpenError : Type 0 where
  no_metadata_version : OpenError
  no_content_version : OpenError
  unknown_content_table : OpenError

abbrev pub content_schema_version : ℕ
content_schema_version = 6

-- `metadataMigrations`, by version
abbrev pub metadata_migrations : List ℕ
metadata_migrations = 1 ∷ 2 ∷ 3 ∷ []

abbrev pub latest_metadata_version : ℕ
latest_metadata_version = 3

abbrev pub content_tables_drop_order : List String
content_tables_drop_order =
    "content_bundle_properties" ∷ "content_graph_properties" ∷ "content_predecessor_ranges"
    ∷ "content_successors" ∷ "content_graph_bundles" ∷ "content_graphs" ∷ "content_bundles"
    ∷ "content_schema_version" ∷ []

abbrev required_version : {E : Type 0} → E → Option ℕ → Result E ℕ
required_version e none = err e
required_version e (some n) = ok n

abbrev pub current_version : Schema → Result OpenError ℕ
current_version s =
    if s.metadata_table then required_version no_metadata_version s.metadata_version else ok 0

-- The loop over the migrations, and the version that is written behind it.
abbrev pub migrated : ℕ → Schema → Schema
migrated current s =
    let ran = record s {
      metadata_table = true;
      migrations_run = s.migrations_run ++ keep (λ m. ltb current m) metadata_migrations;
    } in
    if nat_eq current 0
    then record ran { metadata_version = some latest_metadata_version }
    else if ltb current latest_metadata_version
    then record ran { metadata_version = some latest_metadata_version }
    else ran

unfoldable pub run_metadata_migrations : Schema → Result OpenError Schema
unfolding keep
run_metadata_migrations s = current_version s >>= λ current. ok (migrated current s)

abbrev is_current : Schema → Result OpenError Bool
is_current s =
    if contains s.content_tables "content_schema_version"
    then (required_version no_content_version s.content_version >>= λ n.
        ok (nat_eq n content_schema_version))
    else ok false

-- `checkContentSchemaVersion`
unfoldable pub check_content_schema_version : Schema → Result OpenError Bool
unfolding contains
check_content_schema_version s = is_current s

-- Dropping a table drops its rows and its sequence.
abbrev pub no_content : Database → Database
no_content db = record db {
  graphs = [];
  bundles = [];
  graph_bundles = [];
  successors = [];
  predecessor_ranges = [];
  bundle_properties = [];
  graph_properties = [];
  next_graph = 1;
  next_bundle = 1;
}

unfoldable pub drop_content_tables : Schema → Result OpenError Schema
unfolding contains
drop_content_tables s =
    if all (λ t. contains content_tables_drop_order t) s.content_tables
    then ok
        (record s { content_tables = []; content_version = none; database = no_content s.database })
    else err unknown_content_table

-- `createContentTables` and `storeContentSchemaVersion`
unfoldable pub create_content_tables : Schema → Schema
create_content_tables s = record s {
  content_tables = content_tables_drop_order;
  content_version = some content_schema_version;
}

unfoldable pub clear_all_digests : Schema → Schema
clear_all_digests s = record s {
  database = record s.database {
    metadata = map (λ (m : MetadataRow). record m { digest = "" }) s.database.metadata;
  };
}

abbrev pub renew_content : Schema → Result OpenError Schema
renew_content s = drop_content_tables s >>= λ s'. ok (clear_all_digests (create_content_tables s'))

-- `OpenStore`, of what is in the file
unfoldable pub open_store : Schema → Result OpenError Schema
unfolding run_metadata_migrations check_content_schema_version drop_content_tables
    create_content_tables clear_all_digests
open_store s = run_metadata_migrations s >>= λ s1.
    check_content_schema_version s1 >>= λ current. if current then ok s1 else renew_content s1
