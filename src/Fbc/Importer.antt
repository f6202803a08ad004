-- ===== src/Fbc/Importer.antt =====
-- catalog/v1/fbc/importer.go and error.go, and internal/normalize.go, handler.go and finalize.go: the
-- import, package by package, with the errors of each.
use library_olm.Prelude.{
  String, Option, none, some, List, [], ◌∷◌, ◌++◌, map, keys, contains, sort_func, sorted_entries,
  compare_strings, Map, get, put, Result, ok, err, if◌then◌else◌,
}
use library_olm.Bundle.{SemVer}
use library_olm.Catalog.{
  Writer, Importer, ImportOutcome, imported, partially_imported, import_failed,
}
use library_olm.Sqlite.{Parsers}
use library_olm.Fbc.Blobs.{Declcfg, Meta, IngestExtension, schema_package}
use library_olm.Fbc.Staging.{Staging, RawPackage, no_rows}
use library_olm.Fbc.Ingest.{
  FbcError, extension_failed, IngestError, ingest, append_error, errors_of,
}
use library_olm.Fbc.Handler.{Written, normalize_package}

pub record PackageError (E : Type 0) : Type 0 where
  pub pkg : String
  pub errs : List E

module _ {E : Type 0} where
  -- `mergeMapSlices`: the entries of one map, then those of the next
  unfoldable pub merge_entries : Map (List E) → Map (List E) → Map (List E)
  merge_entries merged [] = merged
  merge_entries merged (e ∷ es) =
      merge_entries (put merged e.0 (errors_of (get merged e.0) ++ e.1)) es

  unfoldable pub merge_map_slices : Map (List E) → List (Map (List E)) → Map (List E)
  unfolding merge_entries
  merge_map_slices merged [] = merged
  merge_map_slices merged (m ∷ ms) = merge_map_slices (merge_entries merged m) ms

  -- The errors of each package, by `text`, in the order of the packages' names.
  unfoldable pub merge_package_errors : (E → String) → List (Map (List E)) → List (PackageError E)
  unfolding merge_map_slices sorted_entries sort_func
  merge_package_errors text ms =
      map
        (λ (e : String × List E). record {
          pkg = e.0;
          errs = sort_func (λ a b. compare_strings (text a) (text b)) e.1;
        })
        (sorted_entries (merge_map_slices [] ms))

-- `PropertyWriter`
pub record PropertyWriter (Value WriteFailure C : Type 0) : Type 0 where
  pub write_bundle_property : String → String → Value → C → Result WriteFailure C
  pub write_graph_property : List String → String → Value → C → Result WriteFailure C

-- `NewPropertyWriter`: a path is below the package.
unfoldable pub new_property_writer :
    {Value WriteFailure : Type 0}
    → String
    → (w : Writer Value WriteFailure) → PropertyWriter Value WriteFailure w.Content
new_property_writer name w = record {
  write_bundle_property = w.set_bundle_property;
  write_graph_property = λ path. w.set_graph_property (name ∷ path);
}

module _ (v : SemVer) (p : Parsers v) (d : Declcfg) (Failure WriteFailure : Type 0) where
  abbrev pub Fault : Type 0
  Fault = FbcError Failure WriteFailure

  -- `OLMPackageExtension`
  pub record OlmPackageExtension : Type 1 where
    pub callbacks : IngestExtension d p.Value Failure
    pub finalize_package :
        (C : Type 0)
        → PropertyWriter p.Value WriteFailure C
        → Staging
        → String
        → C
        → C × Option Failure

  pub data ImportFailure : Type 0 where
    ingesting : IngestError d p.Value Failure WriteFailure p.marshal → ImportFailure
    no_handler : String → ImportFailure
    packages : List (PackageError Fault) → ImportFailure

  abbrev pub ingest_callbacks :
      Option OlmPackageExtension → Option (IngestExtension d p.Value Failure)
  ingest_callbacks none = none
  ingest_callbacks (some ext) = some ext.callbacks

  abbrev note_error : String → Map (List Fault) → Option Fault → Map (List Fault)
  note_error name errs none = errs
  note_error name errs (some e) = append_error errs name e

  module _ (C : Type 0) where
    -- The loop of `Normalize` and of `finalize` over the packages that are not skipped.
    unfoldable pub each_package :
        (String → C → Written C Fault)
        → List String
        → List RawPackage
        → Map (List Fault)
        → C
        → C × Map (List Fault)
    each_package f skip [] errs c = (c, errs)
    each_package f skip (r ∷ rs) errs c =
        let skipped = each_package f skip rs errs c in
        let done = f r.package_name c in
        let handled = each_package f skip rs (note_error r.package_name errs done.1) done.0 in
        if contains skip r.package_name then skipped else handled

  abbrev finalize_errors : Option Failure → Option Fault
  finalize_errors none = none
  finalize_errors (some e) = some (extension_failed e)

  -- Without a handler, the first package that is not skipped ends the loop.
  unfoldable pub no_handler_for :
      List String → List RawPackage → Result ImportFailure (Map (List Fault))
  no_handler_for skip [] = ok []
  no_handler_for skip (r ∷ rs) =
      let rest = no_handler_for skip rs in
      if contains skip r.package_name then rest else err (no_handler r.package_name)

  module _ (w : Writer p.Value WriteFailure) where
    open w use {Content}

    -- `HandlerRegistry`: handlers by their schemas
    abbrev pub Registry : Type 0
    Registry = Map (Staging → String → Content → Written Content Fault)

    -- `Normalize`; the registry is asked at each package that is not skipped.
    unfoldable pub normalize_with :
        Option (Staging → String → Content → Written Content Fault)
        → List String
        → Staging
        → Content
        → Content × Result ImportFailure (Map (List Fault))
    unfolding each_package no_handler_for
    normalize_with (some handler) skip st c =
        let (c', errs) =
          each_package Content (handler st) skip (p.listed RawPackage st.packages) [] c in
        (c', ok errs)
    normalize_with none skip st c = (c, no_handler_for skip (p.listed RawPackage st.packages))

    unfoldable pub normalize :
        Registry
        → List String
        → Staging
        → Content
        → Content × Result ImportFailure (Map (List Fault))
    unfolding normalize_with get
    normalize registry skip st c = normalize_with (get registry schema_package) skip st c

    unfoldable pub finalize :
        Option OlmPackageExtension → List String → Staging → Content → Content × Map (List Fault)
    unfolding each_package new_property_writer
    finalize none skip st c = (c, [])
    finalize (some ext) skip st c =
        each_package Content
          (λ name c.
            let done = ext.finalize_package Content (new_property_writer name w) st name c in
            (done.0, finalize_errors done.1))
          skip (p.listed RawPackage st.packages) [] c

    -- The registry that `Import` makes.
    abbrev pub registry : Registry
    registry = (schema_package, normalize_package v p d Failure WriteFailure w) ∷ []

    abbrev pub outcome : List (PackageError Fault) → ImportOutcome ImportFailure
    outcome [] = imported
    outcome (e ∷ es) = partially_imported (packages (e ∷ es))

    abbrev pub finish_import :
        (Fault → String)
        → Option OlmPackageExtension
        → Staging
        → Map (List Fault)
        → Content × Result ImportFailure (Map (List Fault))
        → Content × ImportOutcome ImportFailure
    finish_import text ext st ingest_errors (c, err e) = (c, import_failed e)
    finish_import text ext st ingest_errors (c, ok errs) =
        let (c', finalize_errs) = finalize ext (keys ingest_errors ++ keys errs) st c in
        (c', outcome (merge_package_errors text (ingest_errors ∷ errs ∷ finalize_errs ∷ [])))

    abbrev pub after_ingest :
        (Fault → String)
        → Option OlmPackageExtension
        → Staging × Result (IngestError d p.Value Failure WriteFailure p.marshal) (Map (List Fault))
        → Content
        → Content × ImportOutcome ImportFailure
    after_ingest text ext (st, err e) c = (c, import_failed (ingesting e))
    after_ingest text ext (st, ok errs) c =
        finish_import text ext st errs (normalize registry (keys errs) st c)

    -- `Importer.Import`, of the blobs that the walk finds; `text` is `Error()` of an error.
    unfoldable pub import_blobs :
        (Fault → String)
        → Option OlmPackageExtension
        → List (Meta d)
        → Content
        → Content × ImportOutcome ImportFailure
    unfolding ingest normalize finalize merge_package_errors normalize_package
    import_blobs text ext metas c =
        after_ingest text ext
          (ingest d p.Value Failure WriteFailure p.marshal metas (ingest_callbacks ext) no_rows) c

  unfoldable pub fbc_importer :
      (Fault → String)
      → Option OlmPackageExtension
      → List (Meta d)
      → Importer p.Value WriteFailure ImportFailure
  unfolding import_blobs
  fbc_importer text ext metas = record { import_content = λ w. import_blobs w text ext metas }
