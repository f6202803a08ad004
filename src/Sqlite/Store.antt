-- ===== src/Sqlite/Store.antt =====
-- catalog/v1/sqlite/sqlite.go: the store. A transaction that is not committed leaves the database as
-- it was. The connections and their failures are not modelled.
use library_olm.Prelude.{
  String, Bool, false, ◌&&◌, not, Option, none, some, List, [], ◌∷◌, ◌++◌, map, any, keep,
  sort_func, compare_strings, ℤ, Map, get, put, Result, ok, err, ◌>>=◌, if◌then◌else◌, ◌==◌,
}
use library_olm.Bundle.{SemVer}
use library_olm.Catalog.{
  ImportOutcome, imported, partially_imported, import_failed, ContentConfig, SetConfig, SetOption,
  apply_set_options,
}
use library_olm.Sqlite.Tables.{
  Parsers, MetadataRow, LabelRow, Database, WriteError, query_row, has_catalog,
}
use library_olm.Sqlite.Writer.{content_writer}
use library_olm.Sqlite.Deletion.{delete_all}

abbrev pub label_catalog_name : String
label_catalog_name = "olm.operatorframework.io/metadata.name"

pub data StoreError (Failure : Type 0) : Type 0 where
  uri_required : StoreError Failure
  importing : Failure → StoreError Failure
  reserved_label : StoreError Failure
  label_violated : StoreError Failure
  catalog_not_found : String → StoreError Failure

-- `storedCatalog`
pub record StoredCatalog : Type 0 where
  pub name : String
  pub uri : String
  pub digest : String
  pub priority : ℤ
  pub labels : Map String

-- `queryLabels`
unfoldable pub collect_labels : String → List LabelRow → Map String → Map String
collect_labels name [] lbls = lbls
collect_labels name (r ∷ rs) lbls =
    collect_labels name rs (if r.catalog_name == name then put lbls r.key r.value else lbls)

unfoldable pub query_labels : Database → String → Map String
unfolding collect_labels
query_labels db name = collect_labels name db.labels []

abbrev pub stored_catalog : Database → MetadataRow → StoredCatalog
stored_catalog db m = record {
  name = m.name;
  uri = m.uri;
  digest = m.digest;
  priority = m.priority;
  labels = query_labels db m.name;
}

-- UPDATE catalog_metadata SET … WHERE name = ?
abbrev pub update_metadata : String → (MetadataRow → MetadataRow) → Database → Database
update_metadata name change db = record db {
  metadata = map (λ (m : MetadataRow). if m.name == name then change m else m) db.metadata;
}

abbrev pub update_uri : String → Option String → Database → Database
update_uri name none db = db
update_uri name (some uri) db = update_metadata name (λ m. record m { uri = uri }) db

abbrev pub update_priority : String → Option ℤ → Database → Database
update_priority name none db = db
update_priority name (some priority) db =
    update_metadata name (λ m. record m { priority = priority }) db

abbrev pub priority_or_zero : Option ℤ → ℤ
priority_or_zero none = ℤ.pos 0
priority_or_zero (some priority) = priority

abbrev pub is_label : String → String → LabelRow → Bool
is_label name key r = r.catalog_name == name && r.key == key

abbrev pub put_reserved_label : String → Database → Database
put_reserved_label name db = record db {
  labels =
      keep (λ r. not (is_label name label_catalog_name r)) db.labels
      ++ (record { catalog_name = name; key = label_catalog_name; value = name } ∷ []);
}

module _ (v : SemVer) (p : Parsers v) (F : Type 0) where
  abbrev pub found_catalog :
      Database → String → Option MetadataRow → Result (StoreError F) StoredCatalog
  found_catalog db name none = err (catalog_not_found name)
  found_catalog db name (some m) = ok (stored_catalog db m)

  unfoldable pub get_catalog : Database → String → Result (StoreError F) StoredCatalog
  unfolding query_row query_labels
  get_catalog db name =
      found_catalog db name (query_row (λ (m : MetadataRow). m.name == name) db.metadata)

  abbrev pub insert_metadata :
      String → Option String → Option ℤ → Database → Result (StoreError F) Database
  insert_metadata name none priority db = err uri_required
  insert_metadata name (some uri) priority db = ok (record db {
    metadata =
        db.metadata
        ++ (record { name = name; uri = uri; digest = ""; priority = priority_or_zero priority }
            ∷ []);
  })

  -- the metadata of a new catalog, or of one that is there
  unfoldable pub write_metadata :
      String → Option String → Option ℤ → Database → Result (StoreError F) Database
  write_metadata name uri priority db =
      if has_catalog db name
      then ok (update_priority name priority (update_uri name uri db))
      else insert_metadata name uri priority db

  abbrev pub import_result :
      Database × ImportOutcome F → Result (StoreError F) (Database × Option F)
  import_result (db, imported) = ok (db, none)
  import_result (db, partially_imported failure) = ok (db, some failure)
  import_result (db, import_failed failure) = err (importing failure)

  abbrev pub set_digest : String → String → Database × Option F → Database × Option F
  set_digest name digest (db, failure) =
      (update_metadata name (λ m. record m { digest = digest }) db, failure)

  -- the content, with the error of a partial import
  unfoldable pub write_content :
      String
      → Option (ContentConfig p.Value WriteError F)
      → Database
      → Result (StoreError F) (Database × Option F)
  unfolding delete_all content_writer
  write_content name none db = ok (db, none)
  write_content name (some content) db =
      import_result (content.importer.import_content (content_writer name v p) (delete_all name db))
      >>= λ written. ok (set_digest name content.digest written)

  unfoldable pub insert_labels : String → Map String → Database → Result (StoreError F) Database
  insert_labels name [] db = ok db
  insert_labels name (e ∷ lbls) db =
      let skipped = insert_labels name lbls db in
      let inserted = insert_labels name lbls (record db {
        labels = db.labels ++ (record { catalog_name = name; key = e.0; value = e.1 } ∷ []);
      }) in
      if e.0 == label_catalog_name
      then skipped
      else if any (is_label name e.0) db.labels
      then err label_violated
      else inserted

  abbrev pub is_reserved : String → Option String → Bool
  is_reserved name none = false
  is_reserved name (some value) = not (value == name)

  unfoldable pub write_labels :
      String → Option (Map String) → Database → Result (StoreError F) Database
  unfolding insert_labels get
  write_labels name none db = ok db
  write_labels name (some lbls) db =
      if is_reserved name (get lbls label_catalog_name)
      then err reserved_label
      else insert_labels name lbls
          (record db { labels = keep (λ (r : LabelRow). not (r.catalog_name == name)) db.labels })

  -- The transaction of `Set`: the database that it commits, the catalog and the import's error.
  unfoldable pub set_transaction :
      String
      → SetConfig p.Value WriteError F
      → Database
      → Result (StoreError F) (Database × (StoredCatalog × Option F))
  unfolding write_metadata write_content write_labels get_catalog
  set_transaction name cfg db = write_metadata name cfg.uri cfg.priority db >>= λ db1.
      write_content name cfg.content db1 >>= λ written.
      write_labels name cfg.labels written.0 >>= λ db3.
      get_catalog (put_reserved_label name db3) name >>= λ cat.
      ok (put_reserved_label name db3, (cat, written.1))

  abbrev pub committed :
      Database
      → Result (StoreError F) (Database × (StoredCatalog × Option F))
      → Database × Result (StoreError F) (StoredCatalog × Option F)
  committed db (err e) = (db, err e)
  committed db (ok (db', result)) = (db', ok result)

  unfoldable pub set :
      String
      → List (SetOption p.Value WriteError F)
      → Database
      → Database × Result (StoreError F) (StoredCatalog × Option F)
  unfolding set_transaction apply_set_options
  set name opts db =
      committed db (set_transaction name (apply_set_options p.Value WriteError F opts) db)

unfoldable pub list_catalogs : Database → List StoredCatalog
unfolding query_labels
list_catalogs db =
    map (stored_catalog db)
      (sort_func (λ (m n : MetadataRow). compare_strings m.name n.name) db.metadata)
