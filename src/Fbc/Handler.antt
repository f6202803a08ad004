-- ===== src/Fbc/Handler.antt =====
-- catalog/v1/fbc/internal/handler_olm_package.go: a package is validated and then written. What has
-- been written before an error stays.
use Prim.Native.String
use library_olm.Prelude.{
  String, ◌||◌, ◌&&◌, not, Option, none, some, List, [], ◌∷◌, ◌++◌, contains, is_empty, is_some,
  Result, ok, err, ◌>>=◌, if◌then◌else◌, ◌==◌,
}
use library_olm.Bundle.{SemVer, parse_release, Release, ReleaseError}
use library_olm.Catalog.{Writer}
use library_olm.Sqlite.{Parsers}
use library_olm.Fbc.Blobs.{Declcfg, schema_package, schema_channel, schema_bundle}
use library_olm.Fbc.Staging.{Staging, RawBundle, RawDeprecationEntry}
use library_olm.Fbc.Ingest.{
  FbcError, version_not_parsed, release_not_parsed, no_image, image_not_parsed, image_not_tagged,
  unknown_bundles, skip_range_not_parsed, writing,
}
use library_olm.Fbc.Accessor.{
  ChannelEntry, ChannelData, package_bundles, package_channels, package_deprecation_entries,
}

-- What a chain of writes leaves, and the error that ended it.
abbrev pub Written : Type 0 → Type 0 → Type 0
Written C E = C × Option E

module _ {C E : Type 0} where
  abbrev pub after_write : C → Result E C → Written C E
  after_write c (err e) = (c, some e)
  after_write c (ok c') = (c', none)

  infixl 5 ◌>>>◌
  abbrev pub ◌>>>◌ : Written C E → (C → Written C E) → Written C E
  (c, some e) >>> next = (c, some e)
  (c, none) >>> next = next c

  unfoldable pub write_each : {A : Type 0} → (A → C → Written C E) → List A → C → Written C E
  write_each f [] c = (c, none)
  write_each f (x ∷ xs) c = f x c >>> write_each f xs

pub record ValidatedBundle : Type 0 where
  pub name : String
  pub pkg : String
  pub version : String
  pub release : String
  pub uri : String

-- The entries of a channel that name none of the bundles.
unfoldable pub missing_in : List String → String → List ChannelEntry → List (String × String)
missing_in names channel [] = []
missing_in names channel (e ∷ es) =
    let rest = missing_in names channel es in
    if contains names e.name then rest else (channel, e.name) ∷ rest

unfoldable pub missing_entries : List String → List ChannelData → List (String × String)
unfolding missing_in
missing_entries names [] = []
missing_entries names (ch ∷ chs) = missing_in names ch.name ch.entries ++ missing_entries names chs

unfoldable pub bundle_names : List ValidatedBundle → List String
bundle_names [] = []
bundle_names (b ∷ bs) = b.name ∷ bundle_names bs

module _ (v : SemVer) (p : Parsers v) (d : Declcfg) (Failure WriteFailure : Type 0) where
  abbrev Checked : Type 0 → Type 0
  Checked A = Result (FbcError Failure WriteFailure) A

  abbrev pub parsed : {A : Type 0} → FbcError Failure WriteFailure → Option A → Checked A
  parsed e none = err e
  parsed e (some a) = ok a

  abbrev pub parsed_release : String → Result ReleaseError (Release v) → Checked Unit
  parsed_release name (err e) = err (release_not_parsed name)
  parsed_release name (ok r) = ok tt

  unfoldable pub check_image : String → String → Checked String
  check_image name image =
      if image == ""
      then err (no_image name)
      else parsed (image_not_parsed name) (d.parse_named image) >>= λ ref.
          if ref.is_tagged || ref.is_canonical
          then ok (String.◌++◌ "docker://" ref.text)
          else err (image_not_tagged name)

  unfoldable pub validate_bundle : RawBundle → Checked ValidatedBundle
  unfolding check_image
  validate_bundle b = parsed (version_not_parsed b.name) (p.parse_version b.version) >>= λ _.
      (if b.release == "" then ok tt else parsed_release b.name (parse_release v b.release))
      >>= λ _. check_image b.name b.image >>= λ uri. ok (record {
        name = b.name;
        pkg = b.package_name;
        version = b.version;
        release = b.release;
        uri = uri;
      })

  unfoldable pub validate_bundles : List RawBundle → Checked (List ValidatedBundle)
  unfolding validate_bundle
  validate_bundles [] = ok []
  validate_bundles (b ∷ bs) =
      let rest = validate_bundles bs in validate_bundle b >>= λ vb. rest >>= λ vbs. ok (vb ∷ vbs)

  unfoldable pub validate_entries : List ValidatedBundle → List ChannelData → Checked Unit
  unfolding bundle_names missing_entries
  validate_entries bundles channels =
      let missing = missing_entries (bundle_names bundles) channels in
      if is_empty missing then ok tt else err (unknown_bundles missing)

  -- The ranges of the entries are parsed before anything is written.
  unfoldable pub check_ranges : String → List ChannelEntry → Checked Unit
  check_ranges channel [] = ok tt
  check_ranges channel (e ∷ es) =
      let rest = check_ranges channel es in
      if not (e.skip_range == "") && not (is_some (p.parse_range e.skip_range))
      then err (skip_range_not_parsed channel e.name)
      else rest

  unfoldable pub check_skip_ranges : List ChannelData → Checked Unit
  unfolding check_ranges
  check_skip_ranges [] = ok tt
  check_skip_ranges (ch ∷ chs) =
      let rest = check_skip_ranges chs in check_ranges ch.name ch.entries >>= λ _. rest

  -- The part of `Normalize` before the first write.
  unfoldable pub validate_package :
      Staging → String → Checked (List ValidatedBundle × List ChannelData)
  unfolding package_bundles package_channels validate_bundles validate_entries check_skip_ranges
  validate_package st name = validate_bundles (package_bundles v p st name) >>= λ bundles.
      validate_entries bundles (package_channels v p st name) >>= λ _.
      check_skip_ranges (package_channels v p st name) >>= λ _.
      ok (bundles, package_channels v p st name)

  module _ (w : Writer p.Value WriteFailure) where
    open w use {Content}

    abbrev Writes : Type 0
    Writes = Written Content (FbcError Failure WriteFailure)

    abbrev pub written : Content → Result WriteFailure Content → Writes
    written c (err e) = (c, some (writing e))
    written c (ok c') = (c', none)

    -- A bundle that an entry replaces or skips, and its edge.
    unfoldable pub write_edge : List String → String → String → Content → Writes
    write_edge path to from c = written c (w.insert_bundle from "" "" "" "" c) >>> λ c.
        written c (w.add_edge path from to c)

    unfoldable pub write_entry : List String → ChannelEntry → Content → Writes
    unfolding write_edge write_each
    write_entry path e c =
        (if e.replaces == "" then (c, none) else write_edge path e.name e.replaces c) >>> λ c.
        write_each (write_edge path e.name) e.skips c >>> λ c.
        if e.skip_range == ""
        then (c, none)
        else written c (w.add_predecessor_range path e.name e.skip_range c)

    unfoldable pub write_channel_successors : List String → List ChannelEntry → Content → Writes
    unfolding write_entry write_each
    write_channel_successors path entries = write_each (write_entry path) entries

    unfoldable pub write_channel : String → ChannelData → Content → Writes
    unfolding write_channel_successors write_each
    write_channel name ch c =
        let path = name ∷ ch.name ∷ [] in
        written c (w.create_graph path c) >>> λ c.
        write_each (λ (e : ChannelEntry) c. written c (w.add_bundle_to_graph path e.name c))
          ch.entries c
        >>> λ c. write_channel_successors path ch.entries c

    unfoldable pub write_deprecation : String → RawDeprecationEntry → Content → Writes
    write_deprecation name r c =
        if r.schema == schema_package
        then written c (w.set_graph_deprecation (name ∷ []) r.message c)
        else if r.schema == schema_channel
        then written c (w.set_graph_deprecation (name ∷ r.name ∷ []) r.message c)
        else if r.schema == schema_bundle
        then written c (w.set_bundle_deprecation r.name r.message c)
        else (c, none)

    -- The part of `Normalize` that writes.
    unfoldable pub write_package :
        Staging → String → List ValidatedBundle → List ChannelData → Content → Writes
    unfolding write_channel write_deprecation write_each package_deprecation_entries
    write_package st name bundles channels c = written c (w.create_graph (name ∷ []) c) >>> λ c.
        write_each
          (λ (b : ValidatedBundle) c.
            written c (w.insert_bundle b.name b.pkg b.version b.release b.uri c))
          bundles c
        >>> λ c. write_each (write_channel name) channels c >>> λ c.
            write_each (write_deprecation name) (package_deprecation_entries v p st name) c

    abbrev pub write_validated :
        Staging → String → Checked (List ValidatedBundle × List ChannelData) → Content → Writes
    write_validated st name (err e) c = (c, some e)
    write_validated st name (ok (bundles, channels)) c = write_package st name bundles channels c

    -- `OLMPackageHandler.Normalize`
    unfoldable pub normalize_package : Staging → String → Content → Writes
    unfolding validate_package write_package
    normalize_package st name c = write_validated st name (validate_package st name) c
