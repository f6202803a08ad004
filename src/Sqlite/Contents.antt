-- ===== src/Sqlite/Contents.antt =====
-- What `Set` (catalog/v1/sqlite/sqlite.go) keeps of the content: all that the writer's methods and the
-- deletion of the content keep and that does not depend on metadata and labels.
use library_olm.Prelude.{
  String, Option, none, some, List, [], ◌∷◌, keep-All, any, Map, ℤ, get, Result, ok, err, Yields,
  ok-Yields, err-Yields, >>=-Yields, if-Yields, ◌==◌, ◌≡◌, refl,
}
use library_olm.Bundle.{SemVer}
use library_olm.Catalog.{
  Keeps, IsImporter, ImportOutcome, imported, partially_imported, import_failed, ContentConfig,
  SetConfig, SetOption, apply_set_options,
}
use library_olm.Sqlite.Tables.{Parsers, Database, MetadataRow, LabelRow, WriteError, has_catalog}
use library_olm.Sqlite.Writer.{content_writer}
use library_olm.Sqlite.Store.{
  StoreError, StoredCatalog, label_catalog_name, update_uri, update_priority, is_label,
  put_reserved_label, insert_metadata, write_metadata, import_result, write_content, insert_labels,
  is_reserved, write_labels, set_transaction, committed, set, get_catalog,
}
use library_olm.Sqlite.Deletion.{delete_all, delete_graphs, delete_bundles, delete_catalog}
use library_olm.Sqlite.Descent.{IsForest}
use library_olm.Sqlite.Forest.{content_writer-IsForest}

-- What every method of the writer of a catalog keeps.
unfoldable IsWritten : String → (v : SemVer) → Parsers v → (Database → Type 0) → Type 0
unfolding content_writer
IsWritten name v p P = Keeps p.Value WriteError (content_writer name v p) P

IsForest-IsWritten : (name : String) (v : SemVer) (p : Parsers v) → IsWritten name v p IsForest
unfolding IsWritten content_writer
IsForest-IsWritten name v p = content_writer-IsForest name v p

module _ (v : SemVer) (p : Parsers v) (F : Type 0) (name : String) (P : Database → Type 0)
    (metadata : (db : Database) (ms : List MetadataRow) → P db → P (record db { metadata = ms }))
    (labels : (db : Database) (ls : List LabelRow) → P db → P (record db { labels = ls }))
    (deleted : (db : Database) → P db → P (delete_all name db))
    (writes : IsWritten name v p P) where
  update_uri-keeps : (uri : Option String) (db : Database) → P db → P (update_uri name uri db)
  update_uri-keeps none db h = h
  update_uri-keeps (some uri) db h = metadata db _ h

  update_priority-keeps :
      (priority : Option ℤ) (db : Database) → P db → P (update_priority name priority db)
  update_priority-keeps none db h = h
  update_priority-keeps (some priority) db h = metadata db _ h

  insert_metadata-Yields :
      (uri : Option String) (priority : Option ℤ) (db : Database)
      → P db
      → Yields P (insert_metadata v p F name uri priority db)
  insert_metadata-Yields none priority db h = err-Yields _
  insert_metadata-Yields (some uri) priority db h = ok-Yields _ (metadata db _ h)

  write_metadata-Yields :
      (uri : Option String) (priority : Option ℤ) (db : Database)
      → P db
      → Yields P (write_metadata v p F name uri priority db)
  unfolding write_metadata
  write_metadata-Yields uri priority db h =
      if-Yields (has_catalog db name)
        (ok-Yields _ (update_priority-keeps priority _ (update_uri-keeps uri db h)))
        (insert_metadata-Yields uri priority db h)

  import_result-Yields :
      (done : Database × ImportOutcome F)
      → P done.0
      → Yields (λ written. P written.0) (import_result v p F done)
  import_result-Yields (db, imported) h = ok-Yields _ h
  import_result-Yields (db, partially_imported f) h = ok-Yields _ h
  import_result-Yields (db, import_failed f) h = err-Yields _

  write_content-Yields :
      (content : Option (ContentConfig p.Value WriteError F))
      → ((c : ContentConfig p.Value WriteError F)
          → content ≡ some c
          → IsImporter p.Value WriteError c.importer)
      → (db : Database) → P db
      → Yields (λ written. P written.0) (write_content v p F name content db)
  unfolding write_content content_writer IsWritten
  write_content-Yields none k db h = ok-Yields _ h
  write_content-Yields (some content) k db h =
      let done = content.importer.import_content (content_writer name v p) (delete_all name db) in
      >>=-Yields (import_result v p F done) (λ written e. ok-Yields _ (
        metadata written.0 _ (
          (import_result-Yields done (
              k content refl (content_writer name v p) P writes (delete_all name db)
                (deleted db h))).at
            written e)))

  insert_labels-Yields :
      (lbls : Map String) (db : Database) → P db → Yields P (insert_labels v p F name lbls db)
  unfolding insert_labels
  insert_labels-Yields [] db h = ok-Yields _ h
  insert_labels-Yields (e ∷ lbls) db h =
      if-Yields (e.0 == label_catalog_name) (insert_labels-Yields lbls db h) (
        if-Yields (any (is_label name e.0) db.labels) (err-Yields _)
          (insert_labels-Yields lbls _ (labels db _ h)))

  write_labels-Yields :
      (lbls : Option (Map String)) (db : Database)
      → P db
      → Yields P (write_labels v p F name lbls db)
  unfolding write_labels
  write_labels-Yields none db h = ok-Yields _ h
  write_labels-Yields (some lbls) db h =
      if-Yields (is_reserved v p F name (get lbls label_catalog_name)) (err-Yields _)
        (insert_labels-Yields lbls _ (labels db _ h))

  set_transaction-Yields :
      (cfg : SetConfig p.Value WriteError F)
      → ((c : ContentConfig p.Value WriteError F)
          → cfg.content ≡ some c
          → IsImporter p.Value WriteError c.importer)
      → (db : Database) → P db
      → Yields (λ done. P done.0) (set_transaction v p F name cfg db)
  unfolding set_transaction
  set_transaction-Yields cfg k db h =
      >>=-Yields (write_metadata v p F name cfg.uri cfg.priority db) (λ db1 e1.
        >>=-Yields (write_content v p F name cfg.content db1) (λ written e2.
          >>=-Yields (write_labels v p F name cfg.labels written.0) (λ db3 e3.
            >>=-Yields (get_catalog v p F (put_reserved_label name db3) name) (λ cat e4.
              ok-Yields _ (
                labels db3 _ (
                  (write_labels-Yields cfg.labels written.0 (
                      (write_content-Yields cfg.content k db1
                          ((write_metadata-Yields cfg.uri cfg.priority db h).at db1 e1)).at
                        written e2)).at
                    db3 e3))))))

  committed-keeps :
      (db : Database) (done : Result (StoreError F) (Database × (StoredCatalog × Option F)))
      → P db
      → Yields (λ done. P done.0) done
      → P (committed v p F db done).0
  committed-keeps db (err e) h y = h
  committed-keeps db (ok (db', result)) h y = y.at (db', result) refl

  set-keeps :
      (opts : List (SetOption p.Value WriteError F))
      → ((c : ContentConfig p.Value WriteError F)
          → (apply_set_options p.Value WriteError F opts).content ≡ some c
          → IsImporter p.Value WriteError c.importer)
      → (db : Database) → P db
      → P (set v p F name opts db).0
  unfolding set
  set-keeps opts k db h =
      committed-keeps db _ h
        (set_transaction-Yields (apply_set_options p.Value WriteError F opts) k db h)

delete_all-IsForest : (name : String) (db : Database) → IsForest db → IsForest (delete_all name db)
unfolding delete_all delete_graphs delete_bundles
delete_all-IsForest name db h = keep-All _ _ db.graphs h

-- `Set` and `Delete` keep the graphs a forest in which ids rise, whatever the import writes, if the
-- importer writes by its writer only.
pub set-IsForest :
    (v : SemVer) (p : Parsers v) (F : Type 0) (name : String)
    (opts : List (SetOption p.Value WriteError F))
    → ((c : ContentConfig p.Value WriteError F)
        → (apply_set_options p.Value WriteError F opts).content ≡ some c
        → IsImporter p.Value WriteError c.importer)
    → (db : Database) → IsForest db
    → IsForest (set v p F name opts db).0 × IsForest (delete_catalog name db)
unfolding delete_catalog
set-IsForest v p F name opts k db h = (
  set-keeps v p F name IsForest (λ db ms h. h) (λ db ls h. h) (delete_all-IsForest name)
      (IsForest-IsWritten name v p) opts k db h,
  delete_all-IsForest name db h,
)
