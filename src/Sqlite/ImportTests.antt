-- ===== src/Sqlite/ImportTests.antt =====
-- The theorems on `Set` (catalog/v1/sqlite/sqlite.go) at an import of concrete blobs.
use library_olm.Prelude.{
  String, Option, none, some, List, [], ◌∷◌, get, put, ◌==◌, ◌≡◌, refl, arith, inl, inr, eq_iff,
  Bool-cases,
}
use mathlib.Core.Path.{subst}
use library_olm.Catalog.{
  IsImporter, ContentConfig, SetOption, with_uri, with_content, apply_set_options, apply_each,
  apply_set_option,
}
use library_olm.Samples.{semver, parsers, declcfg, sample_metas}
use library_olm.Fbc.{fbc_importer, ImportFailure, OlmPackageExtension}
use library_olm.Fbc.Writes.{fbc_importer-IsImporter, IsFinalizer}
use library_olm.Sqlite.Tables.{WriteError}
use library_olm.Sqlite.Store.{set, label_catalog_name, query_labels, collect_labels}
use library_olm.Sqlite.Deletion.{delete_catalog}
use library_olm.Sqlite.Foreign.{named_rows}
use library_olm.Sqlite.Transactions.{named_rows-set}
use library_olm.Sqlite.Labelled.{IsLabelled, set-IsLabelled}
use library_olm.Sqlite.Descent.{IsForest}
use library_olm.Sqlite.Contents.{set-IsForest}
use library_olm.Sqlite.Tests.{sample_database, sample_database-IsForest}

-- An import of the sample blobs, without an extension.
abbrev Failed : Type 0
Failed = ImportFailure semver parsers declcfg String WriteError

abbrev no_extension : Option (OlmPackageExtension semver parsers declcfg String WriteError)
no_extension = none

no_extension-IsFinalizer :
    (e : OlmPackageExtension semver parsers declcfg String WriteError)
    → no_extension ≡ some e
    → IsFinalizer semver parsers declcfg String WriteError e
no_extension-IsFinalizer e h = absurd (differ no_extension refl h)
  where
    differ :
        (o : Option (OlmPackageExtension semver parsers declcfg String WriteError))
        → o ≡ none
        → o ≡ some e
        → ⊥
    differ o d h = cc

abbrev sample_options : List (SetOption String WriteError Failed)
sample_options =
    with_uri "u"
    ∷ with_content
        (fbc_importer semver parsers declcfg String WriteError (λ e. "") no_extension sample_metas)
        "sha"
    ∷ []

abbrev sample_content : ContentConfig String WriteError Failed
sample_content = record {
  importer =
      fbc_importer semver parsers declcfg String WriteError (λ e. "") no_extension sample_metas;
  digest = "sha";
}

sample_options-content :
    (apply_set_options String WriteError Failed sample_options).content ≡ some sample_content
unfolding apply_set_options apply_each apply_set_option
sample_options-content = refl

sample_options-IsImporter :
    (c : ContentConfig String WriteError Failed)
    → (apply_set_options String WriteError Failed sample_options).content ≡ some c
    → IsImporter String WriteError c.importer
sample_options-IsImporter c h =
    subst (λ x. IsImporter String WriteError x.importer)
      (same (apply_set_options String WriteError Failed sample_options).content
        sample_options-content h)
      (fbc_importer-IsImporter semver parsers declcfg String WriteError (λ e. "") no_extension
        sample_metas no_extension-IsFinalizer)
  where
    same :
        (o : Option (ContentConfig String WriteError Failed))
        → o ≡ some sample_content
        → o ≡ some c
        → sample_content ≡ c
    same o d e = cc

named_rows-set_example :
    named_rows "b" (set semver parsers Failed "a" sample_options sample_database).0
    ≡ named_rows "b" sample_database
named_rows-set_example =
    named_rows-set "a" "b" refl semver parsers Failed sample_options sample_options-IsImporter
      sample_database

sample_database-IsLabelled : IsLabelled sample_database
sample_database-IsLabelled name there = elim (Bool-cases ("b" == name)) [
  | inl e ↦
      subst (λ n. get (query_labels sample_database n) label_catalog_name ≡ some n)
        ((eq_iff "b" name).0 e) own_label
  | inr e ↦ absurd (ground arith)
]
  where
    own_label : get (query_labels sample_database "b") label_catalog_name ≡ some "b"
    own_label = unfold query_labels collect_labels get put in refl

set-IsLabelled_example :
    IsLabelled (set semver parsers Failed "a" sample_options sample_database).0
    × IsLabelled (delete_catalog "a" sample_database)
set-IsLabelled_example =
    set-IsLabelled semver parsers Failed "a" sample_options sample_options-IsImporter
      sample_database sample_database-IsLabelled

set-IsForest_example :
    IsForest (set semver parsers Failed "b" sample_options sample_database).0
    × IsForest (delete_catalog "b" sample_database)
set-IsForest_example =
    set-IsForest semver parsers Failed "b" sample_options sample_options-IsImporter sample_database
      sample_database-IsForest
