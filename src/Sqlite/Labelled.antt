-- ===== src/Sqlite/Labelled.antt =====
-- The label with the catalog's name that every catalog of the store has (`Set`, `Delete` and
-- `queryLabels` of catalog/v1/sqlite/sqlite.go).
use library_olm.Prelude.{
  String, Bool, true, false, not, Option, some, List, [], ◌∷◌, ◌++◌, any, keep, is_empty, Map, get,
  put, get-put, Result, ok, err, >>=-eq-ok, ◌==◌, ◌≡◌, refl, sym, ap, ◌∙◌, ◌⊎◌, Bool-cases, inl,
  inr, arith, eq_iff, eq_refl,
}
use mathlib.Core.Path.{subst}
use library_olm.Bundle.{SemVer}
use library_olm.Catalog.{IsImporter, ContentConfig, SetConfig, SetOption, apply_set_options}
use library_olm.Sqlite.Tables.{Parsers, Database, MetadataRow, LabelRow, WriteError, has_catalog}
use library_olm.Sqlite.Store.{
  StoreError, StoredCatalog, label_catalog_name, collect_labels, query_labels, put_reserved_label,
  write_metadata, write_content, write_labels, get_catalog, set_transaction, committed, set,
  is_label,
}
use library_olm.Sqlite.Deletion.{delete_all, delete_bundles, delete_graphs, delete_catalog}
use library_olm.Sqlite.Foreign.{named_rows}
use library_olm.Sqlite.Isolation.{delete_catalog-leaves}
use library_olm.Sqlite.Transactions.{named_rows-set, the_result}

-- Every catalog that is there has its name as the reserved label.
abbrev pub IsLabelled : Database → Type 0
IsLabelled db =
    (name : String)
    → has_catalog db name ≡ true
    → get (query_labels db name) label_catalog_name ≡ some name

collect_labels-own :
    (name : String) (r : LabelRow) (rs : List LabelRow) (lbls : Map String)
    → r.catalog_name == name ≡ true
    → collect_labels name (r ∷ rs) lbls ≡ collect_labels name rs (put lbls r.key r.value)
unfolding collect_labels
collect_labels-own name r rs lbls e = rw e refl

-- The two are read from the rows that name the catalog.
collect_labels-keep :
    (name : String) (rs : List LabelRow) (lbls : Map String)
    → collect_labels name rs lbls
      ≡ collect_labels name (keep (λ (l : LabelRow). l.catalog_name == name) rs) lbls
unfolding collect_labels keep
collect_labels-keep name [] lbls = refl
collect_labels-keep name (r ∷ rs) lbls = elim (Bool-cases (r.catalog_name == name)) [
  | inl e ↦ rw e (
      collect_labels-keep name rs (put lbls r.key r.value)
      ∙ sym (collect_labels-own name r (keep (λ (l : LabelRow). l.catalog_name == name) rs) lbls e))
  | inr e ↦ rw e (collect_labels-keep name rs lbls)
]

any-keep :
    (name : String) (ms : List MetadataRow)
    → any (λ (m : MetadataRow). m.name == name) ms
      ≡ not (is_empty (keep (λ (m : MetadataRow). m.name == name) ms))
unfolding keep
any-keep name [] = refl
any-keep name (m ∷ ms) = elim (Bool-cases (m.name == name)) [
  | inl e ↦ rw e refl
  | inr e ↦ rw e (any-keep name ms)
]

-- Where the rows of a catalog stay, its label stays.
labelled-as :
    (name : String) (db db' : Database)
    → named_rows name db' ≡ named_rows name db
    → (has_catalog db name ≡ true → get (query_labels db name) label_catalog_name ≡ some name)
    → has_catalog db' name ≡ true
    → get (query_labels db' name) label_catalog_name ≡ some name
unfolding named_rows query_labels
labelled-as name db db' same labelled there =
    ap (λ ls. get ls label_catalog_name)
      (collect_labels-keep name db'.labels []
        ∙ ap (λ rows. collect_labels name rows.0.1 []) same
        ∙ sym (collect_labels-keep name db.labels []))
    ∙ labelled (
        any-keep name db.metadata
        ∙ sym (ap (λ rows. not (is_empty rows.0.0)) same)
        ∙ sym (any-keep name db'.metadata)
        ∙ there)

collect_labels-last :
    (name : String) (rs : List LabelRow) (value : String) (lbls : Map String)
    → get
        (collect_labels name
          (rs ++ (record { catalog_name = name; key = label_catalog_name; value = value } ∷ []))
          lbls)
        label_catalog_name
      ≡ some value
unfolding collect_labels
collect_labels-last name [] value lbls =
    rw (eq_refl name) (get-put lbls label_catalog_name value label_catalog_name)
collect_labels-last name (r ∷ rs) value lbls = collect_labels-last name rs value _

label-put_reserved_label :
    (name : String) (db : Database)
    → get (query_labels (put_reserved_label name db) name) label_catalog_name ≡ some name
unfolding query_labels
label-put_reserved_label name db =
    collect_labels-last name (keep (λ r. not (is_label name label_catalog_name r)) db.labels) name
      []

module _ (v : SemVer) (p : Parsers v) (F : Type 0) (name : String) (db : Database) where
  label-set_transaction :
      (cfg : SetConfig p.Value WriteError F) (db' : Database) (result : StoredCatalog × Option F)
      → set_transaction v p F name cfg db ≡ ok (db', result)
      → get (query_labels db' name) label_catalog_name ≡ some name
  unfolding set_transaction
  label-set_transaction cfg db' result h =
      let (db1, e1, r1) = >>=-eq-ok (write_metadata v p F name cfg.uri cfg.priority db) _ h in
      let (written, e2, r2) = >>=-eq-ok (write_content v p F name cfg.content db1) _ r1 in
      let (db3, e3, r3) = >>=-eq-ok (write_labels v p F name cfg.labels written.0) _ r2 in
      let (cat, e4, r4) = >>=-eq-ok (get_catalog v p F (put_reserved_label name db3) name) _ r3 in
      committed_label _ _ r4 (label-put_reserved_label name db3)
    where
      committed_label :
          (d : Database) (r : StoredCatalog × Option F)
          → the_result {F = F} {A = Database × (StoredCatalog × Option F)} (ok (d, r))
            ≡ ok (db', result)
          → get (query_labels d name) label_catalog_name ≡ some name
          → get (query_labels db' name) label_catalog_name ≡ some name
      committed_label d r e h = cc

  label-committed :
      (done : Result (StoreError F) (Database × (StoredCatalog × Option F)))
      → ((db' : Database) (result : StoredCatalog × Option F)
          → done ≡ ok (db', result)
          → get (query_labels db' name) label_catalog_name ≡ some name)
      → (has_catalog db name ≡ true → get (query_labels db name) label_catalog_name ≡ some name)
      → has_catalog (committed v p F db done).0 name ≡ true
      → get (query_labels (committed v p F db done).0 name) label_catalog_name ≡ some name
  label-committed (err e) k labelled there = labelled there
  label-committed (ok (db', result)) k labelled there = k db' result refl

any-keep_others :
    (name other : String)
    → name == other ≡ true
    → (ms : List MetadataRow)
    → any
        (λ (m : MetadataRow). m.name == other)
        (keep (λ (m : MetadataRow). not (m.name == name)) ms)
      ≡ false
unfolding keep
any-keep_others name other same [] = refl
any-keep_others name other same (m ∷ ms) = elim (Bool-cases (m.name == name)) [
  | inl e ↦ rw e (any-keep_others name other same ms)
  | inr e ↦ rw (e, not_other e) (any-keep_others name other same ms)
]
  where
    not_other : m.name == name ≡ false → m.name == other ≡ false
    not_other e = ground (arith, eq_iff name other, eq_iff m.name other, eq_iff m.name name)

has_catalog-delete_catalog :
    (name other : String)
    → name == other ≡ true
    → (db : Database) → has_catalog (delete_catalog name db) other ≡ false
unfolding delete_catalog delete_all delete_bundles delete_graphs
has_catalog-delete_catalog name other same db = any-keep_others name other same db.metadata

-- `Set` and `Delete` keep it that every catalog has its name as the reserved label, whatever labels
-- the caller sets and whatever the import writes, if the importer writes by its writer only.
pub set-IsLabelled :
    (v : SemVer) (p : Parsers v) (F : Type 0) (name : String)
    (opts : List (SetOption p.Value WriteError F))
    → ((c : ContentConfig p.Value WriteError F)
        → (apply_set_options p.Value WriteError F opts).content ≡ some c
        → IsImporter p.Value WriteError c.importer)
    → (db : Database) → IsLabelled db
    → IsLabelled (set v p F name opts db).0 × IsLabelled (delete_catalog name db)
set-IsLabelled v p F name opts k db labelled = (
  λ other. by_name other (Bool-cases (name == other)),
  λ other. deleted other (Bool-cases (name == other)),
)
  where
    of_name :
        (has_catalog (set v p F name opts db).0 name ≡ true)
        → get (query_labels (set v p F name opts db).0 name) label_catalog_name ≡ some name
    of_name =
        unfold set in
        label-committed v p F name db _
          (label-set_transaction v p F name db (apply_set_options p.Value WriteError F opts))
          (labelled name)

    by_name :
        (other : String)
        → (name == other ≡ true ⊎ name == other ≡ false)
        → has_catalog (set v p F name opts db).0 other ≡ true
        → get (query_labels (set v p F name opts db).0 other) label_catalog_name ≡ some other
    by_name other (inl same) =
        subst
          (λ n.
            has_catalog (set v p F name opts db).0 n ≡ true
            → get (query_labels (set v p F name opts db).0 n) label_catalog_name ≡ some n)
          ((eq_iff name other).0 same) of_name
    by_name other (inr different) =
        labelled-as other db _ (named_rows-set name other different v p F opts k db)
          (labelled other)

    not_both : {b : Bool} → b ≡ false → b ≡ true → ⊥
    not_both e d = cc

    deleted :
        (other : String)
        → (name == other ≡ true ⊎ name == other ≡ false)
        → has_catalog (delete_catalog name db) other ≡ true
        → get (query_labels (delete_catalog name db) other) label_catalog_name ≡ some other
    deleted other (inl same) there =
        absurd (not_both (has_catalog-delete_catalog name other same db) there)
    deleted other (inr different) there =
        labelled-as other db _ (delete_catalog-leaves name other different db) (labelled other)
          there
