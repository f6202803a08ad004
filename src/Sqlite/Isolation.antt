-- ===== src/Sqlite/Isolation.antt =====
-- `Set` and `Delete` of one catalog, and what they leave of the others (catalog/v1/sqlite/sqlite.go).
use library_olm.Prelude.{
  String, true, false, not, Option, none, some, List, [], ◌∷◌, ◌++◌, any, keep, keep-keep, keep-map,
  Map, ℤ, get, ok-Yields, err-Yields, if-Yields, if◌then◌else◌, ◌==◌, ◌≡◌, refl, ap, ◌∙◌,
  Bool-cases, inl, inr, arith, eq_iff,
}
use library_olm.Bundle.{SemVer}
use library_olm.Sqlite.Tables.{
  Parsers, Database, MetadataRow, LabelRow, BundleRow, BundleProperty, has_catalog,
}
use library_olm.Sqlite.Store.{
  label_catalog_name, update_metadata, update_uri, update_priority, is_label, put_reserved_label,
  insert_metadata, write_metadata, insert_labels, write_labels, is_reserved,
}
use library_olm.Sqlite.Deletion.{delete_all, delete_graphs, delete_bundles, delete_catalog}
use library_olm.Sqlite.Foreign.{named_rows, keep-append_other, Leaves}

module _ (name other : String) (different : name == other ≡ false) where
  kept : (a : String) → a == other ≡ true → not (a == name) ≡ true
  kept a h = ground (arith, eq_iff name other, eq_iff a other, eq_iff a name)

  pub delete_all-leaves :
      (db : Database) → named_rows other (delete_all name db) ≡ named_rows other db
  unfolding named_rows delete_all delete_graphs delete_bundles
  delete_all-leaves db =
      ap
        (λ (bs : List BundleRow).
          ((named_rows other db).0, (bs, (named_rows other (delete_all name db)).1.1)))
        (keep-keep (λ (b : BundleRow). b.catalog_name == other) _
          (λ (b : BundleRow). kept b.catalog_name) db.bundles)
      ∙ ap
          (λ (rs : List BundleProperty). ((named_rows other db).0, ((named_rows other db).1.0, rs)))
          (keep-keep (λ (r : BundleProperty). r.catalog_name == other) _
            (λ (r : BundleProperty). kept r.catalog_name) db.bundle_properties)

  labels-leave :
      (db : Database) (ls : List LabelRow)
      → keep (λ (l : LabelRow). l.catalog_name == other) ls
        ≡ keep (λ (l : LabelRow). l.catalog_name == other) db.labels
      → named_rows other (record db { labels = ls }) ≡ named_rows other db
  unfolding named_rows
  labels-leave db ls h =
      ap (λ (xs : List LabelRow). (((named_rows other db).0.0, xs), (named_rows other db).1)) h

  metadata-leave :
      (db : Database) (ms : List MetadataRow)
      → keep (λ (m : MetadataRow). m.name == other) ms
        ≡ keep (λ (m : MetadataRow). m.name == other) db.metadata
      → named_rows other (record db { metadata = ms }) ≡ named_rows other db
  unfolding named_rows
  metadata-leave db ms h =
      ap (λ (xs : List MetadataRow). ((xs, (named_rows other db).0.1), (named_rows other db).1)) h

  pub delete_catalog-leaves :
      (db : Database) → named_rows other (delete_catalog name db) ≡ named_rows other db
  unfolding delete_catalog
  delete_catalog-leaves db =
      let rest = delete_all name db in
      labels-leave
        (record rest { metadata = keep (λ (m : MetadataRow). not (m.name == name)) rest.metadata })
        _
        (keep-keep (λ (l : LabelRow). l.catalog_name == other) _
          (λ (l : LabelRow). kept l.catalog_name) rest.labels)
      ∙ metadata-leave rest _ (
          keep-keep (λ (m : MetadataRow). m.name == other) _ (λ (m : MetadataRow). kept m.name)
            rest.metadata)
      ∙ delete_all-leaves db

  pub update_metadata-leaves :
      (change : MetadataRow → MetadataRow)
      → ((m : MetadataRow) → (change m).name ≡ m.name)
      → (db : Database) → named_rows other (update_metadata name change db) ≡ named_rows other db
  update_metadata-leaves change same db = metadata-leave db _ (
      keep-map (λ (m : MetadataRow). m.name == other)
        (λ (m : MetadataRow). if m.name == name then change m else m) name_left not_updated
        db.metadata)
    where
      name_left :
          (m : MetadataRow)
          → (if m.name == name then change m else m).name == other ≡ m.name == other
      name_left m = elim (Bool-cases (m.name == name)) [
        | inl e ↦ rw (e, same m) refl
        | inr e ↦ rw e refl
      ]

      not_updated :
          (m : MetadataRow) → m.name == other ≡ true → (if m.name == name then change m else m) ≡ m
      not_updated m h = elim (Bool-cases (m.name == name)) [
        | inl e ↦
            absurd (ground (arith, eq_iff name other, eq_iff m.name other, eq_iff m.name name))
        | inr e ↦ rw e refl
      ]

  update_uri-leaves :
      (uri : Option String) (db : Database)
      → named_rows other (update_uri name uri db) ≡ named_rows other db
  update_uri-leaves none db = refl
  update_uri-leaves (some uri) db = update_metadata-leaves _ (λ m. refl) db

  update_priority-leaves :
      (priority : Option ℤ) (db : Database)
      → named_rows other (update_priority name priority db) ≡ named_rows other db
  update_priority-leaves none db = refl
  update_priority-leaves (some priority) db = update_metadata-leaves _ (λ m. refl) db

  pub put_reserved_label-leaves :
      (db : Database) → named_rows other (put_reserved_label name db) ≡ named_rows other db
  put_reserved_label-leaves db = labels-leave db _ (
      keep-append_other (λ (l : LabelRow). l.catalog_name == other) _ _ different
      ∙ keep-keep (λ (l : LabelRow). l.catalog_name == other) _ not_it db.labels)
    where
      not_it :
          (l : LabelRow)
          → l.catalog_name == other ≡ true
          → not (is_label name label_catalog_name l) ≡ true
      not_it l h = ground (arith, kept l.catalog_name h)

  module _ (v : SemVer) (p : Parsers v) (F : Type 0) where
    insert_metadata-Leaves :
        (uri : Option String) (priority : Option ℤ) (db : Database)
        → Leaves other db (insert_metadata v p F name uri priority db)
    insert_metadata-Leaves none priority db = err-Yields _
    insert_metadata-Leaves (some uri) priority db = ok-Yields _ (
        metadata-leave db _
          (keep-append_other (λ (m : MetadataRow). m.name == other) db.metadata _ different))

    pub write_metadata-Leaves :
        (uri : Option String) (priority : Option ℤ) (db : Database)
        → Leaves other db (write_metadata v p F name uri priority db)
    unfolding write_metadata
    write_metadata-Leaves uri priority db =
        if-Yields (has_catalog db name)
          (ok-Yields _
            (update_priority-leaves priority (update_uri name uri db) ∙ update_uri-leaves uri db))
          (insert_metadata-Leaves uri priority db)

    insert_labels-Leaves :
        (lbls : Map String) (db : Database) → Leaves other db (insert_labels v p F name lbls db)
    unfolding insert_labels
    insert_labels-Leaves [] db = ok-Yields db refl
    insert_labels-Leaves (e ∷ lbls) db =
        let more = db.labels ++ (record { catalog_name = name; key = e.0; value = e.1 } ∷ []) in
        if-Yields (e.0 == label_catalog_name) (insert_labels-Leaves lbls db) (
          if-Yields (any (is_label name e.0) db.labels) (err-Yields _) (record {
            at = λ db' h.
                (insert_labels-Leaves lbls (record db { labels = more })).at db' h
                ∙ labels-leave db more (
                    keep-append_other (λ (l : LabelRow). l.catalog_name == other) db.labels _
                      different);
          }))

    pub write_labels-Leaves :
        (lbls : Option (Map String)) (db : Database)
        → Leaves other db (write_labels v p F name lbls db)
    unfolding write_labels
    write_labels-Leaves none db = ok-Yields db refl
    write_labels-Leaves (some lbls) db =
        if-Yields (is_reserved v p F name (get lbls label_catalog_name)) (err-Yields _) (record {
          at = λ db' h.
              (insert_labels-Leaves lbls _).at db' h
              ∙ labels-leave db _ (
                  keep-keep (λ (l : LabelRow). l.catalog_name == other) _
                    (λ (l : LabelRow). kept l.catalog_name) db.labels);
        })
