-- ===== src/Fbc/Writes.antt =====
-- The import of file-based catalogs (catalog/v1/fbc) changes the content by the methods of the writer.
use library_olm.Prelude.{
  String, Bool, true, false, Option, none, some, List, [], ◌∷◌, contains, Map, Result, ok, err,
  keys, get, Bool-cases, inl, inr, if◌then◌else◌, ◌==◌, ◌≡◌, refl,
}
use library_olm.Bundle.{SemVer}
use library_olm.Catalog.{Writer, Keeps, IsImporter}
use library_olm.Sqlite.{Parsers}
use library_olm.Fbc.Blobs.{Declcfg, Meta, schema_package, schema_channel, schema_bundle}
use library_olm.Fbc.Staging.{Staging, RawPackage, RawDeprecationEntry}
use library_olm.Fbc.Ingest.{FbcError, IngestError}
use library_olm.Fbc.Accessor.{ChannelEntry, ChannelData, package_deprecation_entries}
use library_olm.Fbc.Handler.{
  Written, ◌>>>◌, write_each, ValidatedBundle, written, write_edge, write_entry,
  write_channel_successors, write_channel, write_deprecation, write_package, validate_package,
  normalize_package, write_validated,
}
use library_olm.Fbc.Importer.{
  PropertyWriter, new_property_writer, OlmPackageExtension, each_package, normalize, finalize,
  import_blobs, fbc_importer, registry, finish_import, after_ingest, normalize_with, ImportFailure,
}

module _ (v : SemVer) (p : Parsers v) (d : Declcfg) (Failure WriteFailure : Type 0) where
  -- The step that an extension adds writes by the methods of its `PropertyWriter` only.
  abbrev pub IsFinalizer : OlmPackageExtension v p d Failure WriteFailure → Type 1
  IsFinalizer e =
      (C : Type 0) (pw : PropertyWriter p.Value WriteFailure C) (P : C → Type 0)
      → ((id key : String) (value : p.Value) (c c' : C)
          → pw.write_bundle_property id key value c ≡ ok c'
          → P c
          → P c')
      → ((path : List String) (key : String) (value : p.Value) (c c' : C)
          → pw.write_graph_property path key value c ≡ ok c'
          → P c
          → P c')
      → (st : Staging) (name : String) (c : C) → P c
      → P (e.finalize_package C pw st name c).0

-- A chain of writes that keeps `P`, whether it ends with an error or not.
record KeepsAll {C E : Type 0} (P : C → Type 0) (f : C → Written C E) : Type 0 where
  at : (c : C) → P c → P (f c).0

module _ {C E : Type 0} (P : C → Type 0) where
  >>>-KeepsAll : {f g : C → Written C E} → KeepsAll P f → KeepsAll P g → KeepsAll P (λ c. f c >>> g)
  >>>-KeepsAll {f} {g} k l = record { at = λ c h. both (f c) (k.at c h) }
    where
      both : (m : Written C E) → P m.0 → P (m >>> g).0
      both (c, some e) h = h
      both (c, none) h = l.at c h

  write_each-KeepsAll :
      {A : Type 0} {f : A → C → Written C E}
      → ((x : A) → KeepsAll P (f x))
      → (xs : List A) → KeepsAll P (write_each f xs)
  unfolding write_each
  write_each-KeepsAll k [] = record { at = λ c h. h }
  write_each-KeepsAll k (x ∷ xs) = >>>-KeepsAll (k x) (write_each-KeepsAll k xs)

  nothing-KeepsAll : KeepsAll {C = C} {E = E} P (λ c. (c, none))
  nothing-KeepsAll = record { at = λ c h. h }

  if-KeepsAll :
      {f g : C → Written C E} (b : Bool)
      → KeepsAll P f
      → KeepsAll P g
      → KeepsAll P (λ c. if b then f c else g c)
  if-KeepsAll true k l = k
  if-KeepsAll false k l = l

module _ (v : SemVer) (p : Parsers v) (d : Declcfg) (Failure WriteFailure : Type 0)
    (w : Writer p.Value WriteFailure) (P : w.Content → Type 0)
    (keeps : Keeps p.Value WriteFailure w P) where
  written-KeepsAll :
      (r : w.Content → Result WriteFailure w.Content)
      → ((c c' : w.Content) → r c ≡ ok c' → P c → P c')
      → KeepsAll P (λ c. written v p d Failure WriteFailure w c (r c))
  written-KeepsAll r k = record { at = λ c h. one c (r c) h (λ c' e. k c c' e h) }
    where
      one :
          (c : w.Content) (o : Result WriteFailure w.Content)
          → P c
          → ((c' : w.Content) → o ≡ ok c' → P c')
          → P (written v p d Failure WriteFailure w c o).0
      one c (err e) h k = h
      one c (ok c') h k = k c' refl

  write_edge-KeepsAll :
      (path : List String) (to from : String)
      → KeepsAll P (write_edge v p d Failure WriteFailure w path to from)
  unfolding write_edge
  write_edge-KeepsAll path to from =
      >>>-KeepsAll P
        (written-KeepsAll (w.insert_bundle from "" "" "" "") (keeps.insert_bundle from "" "" "" ""))
        (written-KeepsAll (w.add_edge path from to) (keeps.add_edge path from to))

  write_entry-KeepsAll :
      (path : List String) (e : ChannelEntry)
      → KeepsAll P (write_entry v p d Failure WriteFailure w path e)
  unfolding write_entry
  write_entry-KeepsAll path e =
      >>>-KeepsAll P
        (if-KeepsAll P (e.replaces == "") (nothing-KeepsAll P)
          (write_edge-KeepsAll path e.name e.replaces))
        (>>>-KeepsAll P (write_each-KeepsAll P (write_edge-KeepsAll path e.name) e.skips) (
          if-KeepsAll P (e.skip_range == "") (nothing-KeepsAll P) (
            written-KeepsAll (w.add_predecessor_range path e.name e.skip_range)
              (keeps.add_predecessor_range path e.name e.skip_range))))

  write_channel-KeepsAll :
      (name : String) (ch : ChannelData)
      → KeepsAll P (write_channel v p d Failure WriteFailure w name ch)
  unfolding write_channel write_channel_successors
  write_channel-KeepsAll name ch =
      let path = name ∷ ch.name ∷ [] in
      >>>-KeepsAll P (written-KeepsAll (w.create_graph path) (keeps.create_graph path)) (
        >>>-KeepsAll P
          (write_each-KeepsAll P
            (λ (e : ChannelEntry).
              written-KeepsAll (w.add_bundle_to_graph path e.name)
                (keeps.add_bundle_to_graph path e.name))
            ch.entries)
          (write_each-KeepsAll P (write_entry-KeepsAll path) ch.entries))

  write_deprecation-KeepsAll :
      (name : String) (r : RawDeprecationEntry)
      → KeepsAll P (write_deprecation v p d Failure WriteFailure w name r)
  unfolding write_deprecation
  write_deprecation-KeepsAll name r =
      if-KeepsAll P (r.schema == schema_package) (graph_message (name ∷ [])) (
        if-KeepsAll P (r.schema == schema_channel) (graph_message (name ∷ r.name ∷ [])) (
          if-KeepsAll P (r.schema == schema_bundle)
            (written-KeepsAll (w.set_bundle_deprecation r.name r.message)
              (keeps.set_bundle_deprecation r.name r.message))
            (nothing-KeepsAll P)))
    where
      graph_message :
          (path : List String)
          → KeepsAll P (λ c.
            written v p d Failure WriteFailure w c (w.set_graph_deprecation path r.message c))
      graph_message path =
          written-KeepsAll (w.set_graph_deprecation path r.message)
            (keeps.set_graph_deprecation path r.message)

  write_package-KeepsAll :
      (st : Staging) (name : String) (bundles : List ValidatedBundle) (chs : List ChannelData)
      → KeepsAll P (write_package v p d Failure WriteFailure w st name bundles chs)
  unfolding write_package
  write_package-KeepsAll st name bundles chs =
      >>>-KeepsAll P
        (written-KeepsAll (w.create_graph (name ∷ [])) (keeps.create_graph (name ∷ [])))
        (>>>-KeepsAll P
          (write_each-KeepsAll P
            (λ (b : ValidatedBundle).
              written-KeepsAll (w.insert_bundle b.name b.pkg b.version b.release b.uri)
                (keeps.insert_bundle b.name b.pkg b.version b.release b.uri))
            bundles)
          (>>>-KeepsAll P (write_each-KeepsAll P (write_channel-KeepsAll name) chs) (
            write_each-KeepsAll P (write_deprecation-KeepsAll name)
              (package_deprecation_entries v p st name))))

  write_validated-keeps :
      (st : Staging) (name : String)
      (o : Result (FbcError Failure WriteFailure) (List ValidatedBundle × List ChannelData))
      (c : w.Content)
      → P c
      → P (write_validated v p d Failure WriteFailure w st name o c).0
  write_validated-keeps st name (err e) c h = h
  write_validated-keeps st name (ok (bundles, chs)) c h =
      (write_package-KeepsAll st name bundles chs).at c h

  normalize_package-KeepsAll :
      (st : Staging) (name : String)
      → KeepsAll P (normalize_package v p d Failure WriteFailure w st name)
  unfolding normalize_package
  normalize_package-KeepsAll st name = record {
    at = λ c h.
        write_validated-keeps st name (validate_package v p d Failure WriteFailure st name) c h;
  }

  each_package-keeps :
      (f : String → w.Content → Written w.Content (FbcError Failure WriteFailure))
      → ((name : String) (c : w.Content) → P c → P (f name c).0)
      → (skip : List String) (rs : List RawPackage)
        (errs : Map (List (FbcError Failure WriteFailure))) (c : w.Content)
      → P c
      → P (each_package v p d Failure WriteFailure w.Content f skip rs errs c).0
  unfolding each_package
  each_package-keeps f k skip [] errs c h = h
  each_package-keeps f k skip (r ∷ rs) errs c h = elim (Bool-cases (contains skip r.package_name)) [
    | inl t ↦ rw t (each_package-keeps f k skip rs errs c h)
    | inr t ↦ rw t (each_package-keeps f k skip rs _ _ (k r.package_name c h))
  ]

  finalize-keeps :
      (ext : Option (OlmPackageExtension v p d Failure WriteFailure))
      → ((e : OlmPackageExtension v p d Failure WriteFailure)
          → ext ≡ some e
          → IsFinalizer v p d Failure WriteFailure e)
      → (skip : List String) (st : Staging) (c : w.Content) → P c
      → P (finalize v p d Failure WriteFailure w ext skip st c).0
  unfolding finalize new_property_writer
  finalize-keeps none k skip st c h = h
  finalize-keeps (some e) k skip st c h =
      each_package-keeps _
        (λ name c h.
          k e refl w.Content (new_property_writer name w) P keeps.set_bundle_property
            (λ path. keeps.set_graph_property (name ∷ path)) st name c h)
        skip (p.listed RawPackage st.packages) [] c h

  finish_import-keeps :
      (text : FbcError Failure WriteFailure → String)
      (ext : Option (OlmPackageExtension v p d Failure WriteFailure))
      → ((e : OlmPackageExtension v p d Failure WriteFailure)
          → ext ≡ some e
          → IsFinalizer v p d Failure WriteFailure e)
      → (st : Staging) (ingest_errors : Map (List (FbcError Failure WriteFailure)))
        (done : w.Content
          × Result
              (ImportFailure v p d Failure WriteFailure)
              (Map (List (FbcError Failure WriteFailure))))
      → P done.0
      → P (finish_import v p d Failure WriteFailure w text ext st ingest_errors done).0
  finish_import-keeps text ext k st errs (c, err e) h = h
  finish_import-keeps text ext k st errs (c, ok more) h = finalize-keeps ext k _ st c h

  after_ingest-keeps :
      (text : FbcError Failure WriteFailure → String)
      (ext : Option (OlmPackageExtension v p d Failure WriteFailure))
      → ((e : OlmPackageExtension v p d Failure WriteFailure)
          → ext ≡ some e
          → IsFinalizer v p d Failure WriteFailure e)
      → (st : Staging)
        (o : Result
          (IngestError d p.Value Failure WriteFailure p.marshal)
          (Map (List (FbcError Failure WriteFailure))))
        (c : w.Content)
      → P c
      → P (after_ingest v p d Failure WriteFailure w text ext (st, o) c).0
  unfolding normalize normalize_with get
  after_ingest-keeps text ext k st (err e) c h = h
  after_ingest-keeps text ext k st (ok errs) c h =
      finish_import-keeps text ext k st errs
        (normalize v p d Failure WriteFailure w (registry v p d Failure WriteFailure w) (keys errs)
          st c)
        (each_package-keeps (normalize_package v p d Failure WriteFailure w st)
          (λ name. (normalize_package-KeepsAll st name).at) (keys errs)
          (p.listed RawPackage st.packages) [] c h)

module _ (v : SemVer) (p : Parsers v) (d : Declcfg) (Failure WriteFailure : Type 0) where
  -- Whatever all methods of a writer keep, the import of a file-based catalog keeps, whether it
  -- succeeds or not, if the extension's last step keeps what its `PropertyWriter` keeps.
  pub fbc_importer-IsImporter :
      (text : FbcError Failure WriteFailure → String)
      (ext : Option (OlmPackageExtension v p d Failure WriteFailure)) (metas : List (Meta d))
      → ((e : OlmPackageExtension v p d Failure WriteFailure)
          → ext ≡ some e
          → IsFinalizer v p d Failure WriteFailure e)
      → IsImporter p.Value WriteFailure (fbc_importer v p d Failure WriteFailure text ext metas)
  unfolding fbc_importer import_blobs
  fbc_importer-IsImporter text ext metas k w P keeps c h =
      after_ingest-keeps v p d Failure WriteFailure w P keeps text ext k _ _ c h
