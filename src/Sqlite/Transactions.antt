-- ===== src/Sqlite/Transactions.antt =====
-- The transaction of `Set` (catalog/v1/sqlite/sqlite.go) and the catalogs that it is not about.
use library_olm.Prelude.{
  String, false, Option, none, some, List, Result, ok, err, >>=-eq-ok, ◌==◌, ◌≡◌, refl, ◌∙◌,
}
use library_olm.Bundle.{SemVer}
use library_olm.Catalog.{
  IsImporter, ImportOutcome, imported, partially_imported, import_failed, ContentConfig, SetConfig,
  SetOption, apply_set_options,
}
use library_olm.Sqlite.Tables.{Parsers, Database, WriteError}
use library_olm.Sqlite.Writer.{content_writer}
use library_olm.Sqlite.Store.{
  StoreError, StoredCatalog, put_reserved_label, write_metadata, import_result, set_digest,
  write_content, write_labels, set_transaction, committed, set, get_catalog,
}
use library_olm.Sqlite.Deletion.{delete_all}
use library_olm.Sqlite.Foreign.{NamedRows, named_rows, content_writer-Keeps}
use library_olm.Sqlite.Isolation.{
  delete_all-leaves, update_metadata-leaves, write_metadata-Leaves, write_labels-Leaves,
  put_reserved_label-leaves,
}

-- A result, where its type is not to be seen.
abbrev pub the_result : {F A : Type 0} → Result (StoreError F) A → Result (StoreError F) A
the_result r = r

module _ (name other : String) (different : name == other ≡ false) (v : SemVer) (p : Parsers v)
    (F : Type 0) where
  import_result-leaves :
      (before : NamedRows) (done : Database × ImportOutcome F) (written : Database × Option F)
      → named_rows other done.0 ≡ before
      → import_result v p F done ≡ ok written
      → named_rows other written.0 ≡ before
  import_result-leaves before (db, imported) written h e = cc
  import_result-leaves before (db, partially_imported f) written h e = cc
  import_result-leaves before (db, import_failed f) written h e = cc

  imported_rows :
      (content : ContentConfig p.Value WriteError F)
      → IsImporter p.Value WriteError content.importer
      → (db : Database)
      → unfold content_writer in
        (named_rows other
            (content.importer.import_content (content_writer name v p) (delete_all name db)).0
          ≡ named_rows other db)
  unfolding content_writer
  imported_rows content keeps db =
      keeps (content_writer name v p) _
        (content_writer-Keeps name other different v p (named_rows other db)) (delete_all name db)
        (delete_all-leaves name other different db)

  write_content-leaves :
      (content : Option (ContentConfig p.Value WriteError F))
      → ((c : ContentConfig p.Value WriteError F)
          → content ≡ some c
          → IsImporter p.Value WriteError c.importer)
      → (db : Database) (written : Database × Option F)
      → write_content v p F name content db ≡ ok written
      → named_rows other written.0 ≡ named_rows other db
  unfolding write_content content_writer
  write_content-leaves none k db written h = cc
  write_content-leaves (some content) k db written h =
      let done = content.importer.import_content (content_writer name v p) (delete_all name db) in
      let (got, e, rest) = >>=-eq-ok (import_result v p F done) _ h in
      same_rows (set_digest v p F name content.digest got) rest
        (update_metadata-leaves name other different _ (λ m. refl) got.0)
      ∙ import_result-leaves (named_rows other db) done got
          (imported_rows content (k content refl) db) e
    where
      same_rows :
          {before : NamedRows} (w : Database × Option F)
          → the_result {F = F} {A = Database × Option F} (ok w) ≡ ok written
          → named_rows other w.0 ≡ before
          → named_rows other written.0 ≡ before
      same_rows w e h = cc

  set_transaction-leaves :
      (cfg : SetConfig p.Value WriteError F)
      → ((c : ContentConfig p.Value WriteError F)
          → cfg.content ≡ some c
          → IsImporter p.Value WriteError c.importer)
      → (db db' : Database) (result : StoredCatalog × Option F)
      → set_transaction v p F name cfg db ≡ ok (db', result)
      → named_rows other db' ≡ named_rows other db
  unfolding set_transaction
  set_transaction-leaves cfg k db db' result h =
      let (db1, e1, r1) = >>=-eq-ok (write_metadata v p F name cfg.uri cfg.priority db) _ h in
      let (written, e2, r2) = >>=-eq-ok (write_content v p F name cfg.content db1) _ r1 in
      let (db3, e3, r3) = >>=-eq-ok (write_labels v p F name cfg.labels written.0) _ r2 in
      let (cat, e4, r4) = >>=-eq-ok (get_catalog v p F (put_reserved_label name db3) name) _ r3 in
      same_rows (put_reserved_label name db3) (cat, written.1) r4
        (put_reserved_label-leaves name other different db3)
      ∙ (write_labels-Leaves name other different v p F cfg.labels written.0).at db3 e3
      ∙ write_content-leaves cfg.content k db1 written e2
      ∙ (write_metadata-Leaves name other different v p F cfg.uri cfg.priority db).at db1 e1
    where
      same_rows :
          {before : NamedRows} (d : Database) (r : StoredCatalog × Option F)
          → the_result {F = F} {A = Database × (StoredCatalog × Option F)} (ok (d, r))
            ≡ ok (db', result)
          → named_rows other d ≡ before
          → named_rows other db' ≡ before
      same_rows d r e h = cc

  committed-leaves :
      (db : Database) (done : Result (StoreError F) (Database × (StoredCatalog × Option F)))
      → ((db' : Database) (result : StoredCatalog × Option F)
          → done ≡ ok (db', result)
          → named_rows other db' ≡ named_rows other db)
      → named_rows other (committed v p F db done).0 ≡ named_rows other db
  committed-leaves db (err e) k = refl
  committed-leaves db (ok (db', result)) k = k db' result refl

-- Whatever the import writes and however it ends, `Set` of one catalog leaves the metadata, the
-- labels, the bundles and the properties of bundles that another catalog has, if the importer
-- writes by its writer only.
pub named_rows-set :
    (name other : String)
    → name == other ≡ false
    → (v : SemVer) (p : Parsers v) (F : Type 0) (opts : List (SetOption p.Value WriteError F))
    → ((c : ContentConfig p.Value WriteError F)
        → (apply_set_options p.Value WriteError F opts).content ≡ some c
        → IsImporter p.Value WriteError c.importer)
    → (db : Database) → named_rows other (set v p F name opts db).0 ≡ named_rows other db
unfolding set
named_rows-set name other different v p F opts k db =
    committed-leaves name other different v p F db _ (
      set_transaction-leaves name other different v p F
        (apply_set_options p.Value WriteError F opts) k db)
