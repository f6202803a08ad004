-- ===== src/Fbc/Ingest.antt =====
-- catalog/v1/fbc/internal/ingest.go: blobs are parsed into inserts, which are written in batches.
use library_olm.Prelude.{
  ℕ, String, Option, none, some, List, [], ◌∷◌, ◌++◌, length, leb, Map, get, put, Result, ok, err,
  ◌>>=◌, wrap_err, if◌then◌else◌, ◌==◌,
}
use library_olm.Fbc.Blobs.{
  Declcfg, Meta, IngestExtension, schema_package, schema_channel, schema_bundle, schema_deprecation,
}
use library_olm.Fbc.Staging.{
  Staging, RawError, Insert, insert_package, insert_channel, insert_bundle, insert_deprecation,
  insert_other,
}

-- The errors of one blob, and those of one package in the later phases. `Failure` is the type of an
-- extension's errors, `WriteFailure` that of the writer's.
pub data FbcError (Failure WriteFailure : Type 0) : Type 0 where
  not_parsed : String → FbcError Failure WriteFailure
  no_package_property : String → FbcError Failure WriteFailure
  extension_failed : Failure → FbcError Failure WriteFailure
  not_marshalled : FbcError Failure WriteFailure
  version_not_parsed : String → FbcError Failure WriteFailure
  release_not_parsed : String → FbcError Failure WriteFailure
  no_image : String → FbcError Failure WriteFailure
  image_not_parsed : String → FbcError Failure WriteFailure
  image_not_tagged : String → FbcError Failure WriteFailure
  -- the channels and the entries that name no bundle
  unknown_bundles : List (String × String) → FbcError Failure WriteFailure
  skip_range_not_parsed : String → String → FbcError Failure WriteFailure
  writing : WriteFailure → FbcError Failure WriteFailure

-- `pkgErrors`
abbrev pub errors_of {ℓ} : {E : Type ℓ} → Option (List E) → List E
errors_of none = []
errors_of (some es) = es

abbrev pub append_error {ℓ} : {E : Type ℓ} → Map (List E) → String → E → Map (List E)
append_error errs pkg e = put errs pkg (errors_of (get errs pkg) ++ (e ∷ []))

-- the batch size of `batchWriter`
abbrev pub batch_size : ℕ
batch_size = 500

-- The transaction of `flush`: the inserts of the batch in their order, or none of them.
unfoldable pub flush : List Insert → Insert
flush [] st = ok st
flush (f ∷ fs) st = f st >>= flush fs

-- What comes behind a `flush`, whose error returns.
abbrev pub flushed :
    Staging
    → Result RawError Staging
    → (Staging → Staging × Option RawError)
    → Staging × Option RawError
flushed st (err e) next = (st, some e)
flushed st (ok st') next = next st'

-- `batchWriter`, of the batch and the rows that it receives. What the earlier batches have written
-- stays where a later one fails, which the error shows with the database.
unfoldable pub batch_writer : List Insert → List Insert → Staging → Staging × Option RawError
unfolding flush
batch_writer batch [] st = flushed st (flush batch st) (λ st'. (st', none))
batch_writer batch (r ∷ rows) st =
    let full = batch ++ (r ∷ []) in
    let rest = batch_writer full rows st in
    let written = flushed st (flush full st) (λ st'. batch_writer [] rows st') in
    if leb batch_size (length full) then written else rest

module _ (d : Declcfg) (Value Failure WriteFailure : Type 0) (marshal : Value → Option String) where
  abbrev Parsed : Type 0 → Type 0
  Parsed A = Result (FbcError Failure WriteFailure) A

  abbrev pub Extension : Type 0
  Extension = Option (IngestExtension d Value Failure)

  abbrev pub or_failed : {A : Type 0} → FbcError Failure WriteFailure → Option A → Parsed A
  or_failed e none = err e
  or_failed e (some a) = ok a

  abbrev pub marshal_result : Option Value → Parsed (Option String)
  marshal_result none = ok none
  marshal_result (some value) =
      or_failed not_marshalled (marshal value) >>= λ data'. ok (some data')

  -- `marshalExtensionResult`
  unfoldable pub marshal_extension_result :
      Extension
      → (IngestExtension d Value Failure → Result Failure (Option Value))
      → Parsed (Option String)
  marshal_extension_result none cb = ok none
  marshal_extension_result (some ext) cb = wrap_err extension_failed (cb ext) >>= marshal_result

  -- the first property of the type `olm.package`
  unfoldable pub extract_bundle_version_release :
      String → List (String × String) → Parsed (String × String)
  extract_bundle_version_release name [] = err (no_package_property name)
  extract_bundle_version_release name ((type', value) ∷ props) =
      let rest = extract_bundle_version_release name props in
      if type' == schema_package
      then or_failed (not_parsed name) (d.unmarshal_property value)
      else rest

  unfoldable pub parse_package : Meta d → Extension → Parsed (Option Insert)
  unfolding marshal_extension_result insert_package
  parse_package meta ext =
      or_failed (not_parsed "package") (d.unmarshal_package meta.blob) >>= λ name.
      marshal_extension_result ext (λ e. e.on_package name) >>= λ ext_data.
      ok (some (insert_package name ext_data))

  unfoldable pub parse_channel : Meta d → Extension → Parsed (Option Insert)
  unfolding marshal_extension_result insert_channel
  parse_channel meta ext =
      or_failed (not_parsed "channel") (d.unmarshal_channel meta.blob) >>= λ ch.
      marshal_extension_result ext (λ e. e.on_channel ch) >>= λ ext_data.
      ok (some (insert_channel ch ext_data))

  unfoldable pub parse_bundle : Meta d → Extension → Parsed (Option Insert)
  unfolding marshal_extension_result extract_bundle_version_release insert_bundle
  parse_bundle meta ext = or_failed (not_parsed "bundle") (d.unmarshal_bundle meta.blob) >>= λ b.
      extract_bundle_version_release b.name b.properties >>= λ vr.
      marshal_extension_result ext (λ e. e.on_bundle b) >>= λ ext_data. ok (
        some (
          insert_bundle (record {
            name = b.name;
            package_name = b.pkg;
            version = vr.0;
            release = vr.1;
            image = b.image;
            ext_data = ext_data;
          })))

  unfoldable pub parse_deprecation : Meta d → Extension → Parsed (Option Insert)
  unfolding marshal_extension_result insert_deprecation
  parse_deprecation meta ext =
      or_failed (not_parsed "deprecation") (d.unmarshal_deprecation meta.blob) >>= λ blob.
      marshal_extension_result ext (λ e. e.on_deprecation blob) >>= λ ext_data.
      ok (some (insert_deprecation blob ext_data))

  -- No insert where there is no extension.
  unfoldable pub parse_other : Meta d → Extension → Parsed (Option Insert)
  unfolding marshal_extension_result insert_other
  parse_other meta none = ok none
  parse_other meta (some ext) =
      marshal_extension_result (some ext) (λ e. e.on_other meta) >>= λ ext_data. ok (
        some (
          insert_other (record {
            schema = meta.schema;
            package_name = meta.pkg;
            name = meta.name;
            ext_data = ext_data;
          })))

  unfoldable pub parse_meta : Meta d → Extension → Parsed (Option Insert)
  unfolding parse_package parse_channel parse_bundle parse_deprecation parse_other
  parse_meta meta ext =
      if meta.schema == schema_package
      then parse_package meta ext
      else if meta.schema == schema_channel
      then parse_channel meta ext
      else if meta.schema == schema_bundle
      then parse_bundle meta ext
      else if meta.schema == schema_deprecation
      then parse_deprecation meta ext
      else parse_other meta ext

  -- What the walk has sent and recorded, and the error that ended it.
  pub record Walked : Type 0 where
    pub rows : List Insert
    pub package_errors : Map (List (FbcError Failure WriteFailure))
    pub walk_error : Option (FbcError Failure WriteFailure)

  abbrev no_walk : Map (List (FbcError Failure WriteFailure)) → Walked
  no_walk errs = record { rows = []; package_errors = errs; walk_error = none }

  abbrev send_row : Option Insert → Walked → Walked
  send_row none w = w
  send_row (some row) w = record w { rows = row ∷ w.rows }

  -- The callback of the walk at each blob. An error of a blob that names no package ends the walk.
  unfoldable pub walk_metas :
      List (Meta d) → Extension → Map (List (FbcError Failure WriteFailure)) → Walked
  unfolding parse_meta
  walk_metas [] ext errs = no_walk errs
  walk_metas (meta ∷ metas) ext errs = elim (parse_meta meta ext) [
    | ok row ↦ send_row row (walk_metas metas ext errs)
    | err e ↦
        let recorded = walk_metas metas ext (append_error errs meta.pkg e) in
        if meta.pkg == ""
        then record { rows = []; package_errors = errs; walk_error = some e }
        else recorded
  ]

  pub data IngestError : Type 0 where
    walking : FbcError Failure WriteFailure → IngestError
    batch_failed : RawError → IngestError

  abbrev ingest_result :
      Walked
      → Staging × Option RawError
      → Staging × Result IngestError (Map (List (FbcError Failure WriteFailure)))
  ingest_result w (st, e) = (st, outcome w.walk_error e)
    where
      outcome :
          Option (FbcError Failure WriteFailure)
          → Option RawError
          → Result IngestError (Map (List (FbcError Failure WriteFailure)))
      outcome (some e) f = err (walking e)
      outcome none (some f) = err (batch_failed f)
      outcome none none = ok w.package_errors

  -- `Ingest` over the blobs in the order of the walk; the writer takes every row that is sent.
  unfoldable pub ingest :
      List (Meta d)
      → Extension
      → Staging
      → Staging × Result IngestError (Map (List (FbcError Failure WriteFailure)))
  unfolding walk_metas batch_writer
  ingest metas ext st =
      let w = walk_metas metas ext [] in ingest_result w (batch_writer [] w.rows st)
