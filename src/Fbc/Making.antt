-- ===== src/Fbc/Making.antt =====
-- What the handler of packages (catalog/v1/fbc/internal/handler_olm_package.go) writes of the channels
-- of a package.
use library_olm.Prelude.{
  String, Bool, true, false, ◌||◌, ◌&&◌, not, List, [], ◌∷◌, ◌++◌, any, ok, if◌then◌else◌, ◌==◌,
  refl,
}
use library_olm.Bundle.{SemVer}
use library_olm.Sqlite.{Parsers}
use library_olm.Fbc.Blobs.{Declcfg, schema_package, schema_channel, schema_bundle}
use library_olm.Fbc.Staging.{Staging, RawDeprecationEntry}
use library_olm.Fbc.Ingest.{FbcError}
use library_olm.Fbc.Accessor.{ChannelEntry, ChannelData, package_deprecation_entries}
use library_olm.Fbc.Handler.{
  Written, ValidatedBundle, written, write_edge, write_entry, write_channel_successors,
  write_channel, write_deprecation, write_package,
}
use library_olm.Fbc.Calls.{
  Call, bundle_inserted, graph_created, bundle_added, edge_added, range_added, graph_deprecated,
  bundle_deprecated, recorder, Makes, any-snoc, >>>-Makes, nothing-Makes, if-Makes,
  write_each-Makes,
}

-- Whether a package makes a call that passes the test `q`, level by level.
module _ (v : SemVer) (p : Parsers v) (d : Declcfg) (Failure WriteFailure : Type 0)
    (q : Call p.Value → Bool) where
  unfoldable pub edge_calls : List String → String → String → Bool
  edge_calls path to from = q (bundle_inserted from "" "" "" "") || q (edge_added path from to)

  unfoldable pub entry_calls : List String → ChannelEntry → Bool
  unfolding edge_calls
  entry_calls path e =
      not (e.replaces == "") && edge_calls path e.name e.replaces
      || (any (edge_calls path e.name) e.skips
          || not (e.skip_range == "") && q (range_added path e.name e.skip_range))

  unfoldable pub channel_calls : String → ChannelData → Bool
  unfolding entry_calls
  channel_calls name ch =
      q (graph_created (name ∷ ch.name ∷ []))
      || (any (λ (e : ChannelEntry). q (bundle_added (name ∷ ch.name ∷ []) e.name)) ch.entries
          || any (entry_calls (name ∷ ch.name ∷ [])) ch.entries)

  unfoldable pub deprecation_calls : String → RawDeprecationEntry → Bool
  deprecation_calls name r =
      if r.schema == schema_package
      then q (graph_deprecated (name ∷ []) r.message)
      else if r.schema == schema_channel
      then q (graph_deprecated (name ∷ r.name ∷ []) r.message)
      else if r.schema == schema_bundle
      then q (bundle_deprecated r.name r.message)
      else false

  unfoldable pub package_calls : Staging → String → List ValidatedBundle → List ChannelData → Bool
  unfolding channel_calls deprecation_calls package_deprecation_entries
  package_calls st name bundles chs =
      q (graph_created (name ∷ []))
      || (any (λ (b : ValidatedBundle). q (bundle_inserted b.name b.pkg b.version b.release b.uri))
            bundles
          || (any (channel_calls name) chs
              || any (deprecation_calls name) (package_deprecation_entries v p st name)))

  abbrev Calls : Type 0
  Calls = List (Call p.Value)

  call-Makes :
      (call : Call p.Value)
      → Makes q (q call) (λ (calls : Calls).
        written v p d Failure WriteFailure
          (recorder p.Value WriteFailure)
          calls
          (ok (calls ++ (call ∷ []))))
  call-Makes call = record { succeeds = λ calls. refl; made = λ calls. any-snoc q calls call }

  write_edge-Makes :
      (path : List String) (to from : String)
      → Makes q
          (edge_calls path to from)
          (write_edge v p d Failure WriteFailure (recorder p.Value WriteFailure) path to from)
  unfolding write_edge edge_calls
  write_edge-Makes path to from =
      >>>-Makes q (call-Makes (bundle_inserted from "" "" "" ""))
        (call-Makes (edge_added path from to))

  write_entry-Makes :
      (path : List String) (e : ChannelEntry)
      → Makes q
          (entry_calls path e)
          (write_entry v p d Failure WriteFailure (recorder p.Value WriteFailure) path e)
  unfolding write_entry entry_calls
  write_entry-Makes path e =
      >>>-Makes q (if-Makes q (e.replaces == "") (write_edge-Makes path e.name e.replaces)) (
        >>>-Makes q (write_each-Makes q (write_edge-Makes path e.name) e.skips)
          (if-Makes q (e.skip_range == "") (call-Makes (range_added path e.name e.skip_range))))

  write_channel-Makes :
      (name : String) (ch : ChannelData)
      → Makes q
          (channel_calls name ch)
          (write_channel v p d Failure WriteFailure (recorder p.Value WriteFailure) name ch)
  unfolding write_channel write_channel_successors channel_calls
  write_channel-Makes name ch =
      let path = name ∷ ch.name ∷ [] in
      >>>-Makes q (call-Makes (graph_created path)) (
        >>>-Makes q
          (write_each-Makes q (λ (e : ChannelEntry). call-Makes (bundle_added path e.name))
            ch.entries)
          (write_each-Makes q (write_entry-Makes path) ch.entries))

  write_deprecation-Makes :
      (name : String) (r : RawDeprecationEntry)
      → Makes q
          (deprecation_calls name r)
          (write_deprecation v p d Failure WriteFailure (recorder p.Value WriteFailure) name r)
  unfolding write_deprecation deprecation_calls
  write_deprecation-Makes name r =
      either (r.schema == schema_package) (call-Makes (graph_deprecated (name ∷ []) r.message)) (
        either (r.schema == schema_channel)
          (call-Makes (graph_deprecated (name ∷ r.name ∷ []) r.message))
          (either (r.schema == schema_bundle) (call-Makes (bundle_deprecated r.name r.message))
            (nothing-Makes q)))
    where
      either :
          {a b : Bool} {f g : Calls → Written Calls (FbcError Failure WriteFailure)} (t : Bool)
          → Makes q a f
          → Makes q b g
          → Makes q (if t then a else b) (λ calls. if t then f calls else g calls)
      either true k l = k
      either false k l = l

  pub write_package-Makes :
      (st : Staging) (name : String) (bundles : List ValidatedBundle) (chs : List ChannelData)
      → Makes q (package_calls st name bundles chs) (
          write_package v p d Failure WriteFailure
            (recorder p.Value WriteFailure)
            st
            name
            bundles
            chs)
  unfolding write_package package_calls
  write_package-Makes st name bundles chs = >>>-Makes q (call-Makes (graph_created (name ∷ []))) (
      >>>-Makes q
        (write_each-Makes q
          (λ (b : ValidatedBundle).
            call-Makes (bundle_inserted b.name b.pkg b.version b.release b.uri))
          bundles)
        (>>>-Makes q (write_each-Makes q (write_channel-Makes name) chs) (
          write_each-Makes q (write_deprecation-Makes name)
            (package_deprecation_entries v p st name))))
