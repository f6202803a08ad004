-- ===== src/Fbc/Updates.antt =====
-- What the handler of packages (catalog/v1/fbc/internal/handler_olm_package.go) writes of the channels
-- of a package.
use library_olm.Prelude.{
  String, Bool, true, ◌||◌, ◌&&◌, not, List, [], any, ok, Result-cases, is_err, is_ok, succeeds,
  is_empty, is_empty-any, ◌==◌, ◌≡◌, refl, sym, ap, ◌∙◌, arith,
}
use library_olm.Bundle.{SemVer}
use library_olm.Sqlite.{Parsers}
use library_olm.Fbc.Blobs.{Declcfg}
use library_olm.Fbc.Staging.{Staging}
use library_olm.Fbc.Accessor.{ChannelEntry, ChannelData, package_bundles, package_channels}
use library_olm.Fbc.Handler.{ValidatedBundle, validate_package, normalize_package, write_package}
use library_olm.Fbc.Calls.{Call, bundle_added, recorder}
use library_olm.Fbc.Making.{entry_calls, package_calls, write_package-Makes}
use library_olm.Fbc.Validity.{is_valid_package, validate_package_iff}
use library_olm.Fbc.Entries.{
  same_path, adds_bundle, adds_edge, adds_range, is_update, has_range, any_entry, IsOfEntries,
  made_by_edge, made_by_range, made_by_bundle, package_calls_lem,
}

module _ (v : SemVer) (p : Parsers v) (d : Declcfg) (Failure WriteFailure : Type 0) where
  -- The calls that a package's rows ask for, with those of its channels' entries told apart.
  pub record AreUpdates (st : Staging) (name : String) (calls : List (Call p.Value)) : Type 0 where
    pub bundles_added :
        (path : List String) (id : String)
        → any (adds_bundle path id) calls ≡ (
            is_valid_package v p d Failure WriteFailure
              (package_bundles v p st name)
              (package_channels v p st name)
            && any_entry name path
                (λ (e : ChannelEntry). e.name == id)
                (package_channels v p st name))
    pub edges_added :
        (path : List String) (from to : String)
        → any (adds_edge path from to) calls ≡ (
            is_valid_package v p d Failure WriteFailure
              (package_bundles v p st name)
              (package_channels v p st name)
            && any_entry name path (is_update from to) (package_channels v p st name))
    pub ranges_added :
        (path : List String) (id range : String)
        → any (adds_range path id range) calls ≡ (
            is_valid_package v p d Failure WriteFailure
              (package_bundles v p st name)
              (package_channels v p st name)
            && any_entry name path (has_range id range) (package_channels v p st name))
    pub nothing_written :
        is_empty calls
        ≡ not (
            is_valid_package v p d Failure WriteFailure
              (package_bundles v p st name)
              (package_channels v p st name))

  of_validated :
      (st : Staging) (name : String) (bundles : List ValidatedBundle) (chs : List ChannelData)
      → validate_package v p d Failure WriteFailure st name ≡ ok (bundles, chs)
      → chs ≡ package_channels v p st name
  unfolding validate_package
  of_validated st name bundles chs h = ground arith

  calls_of_entries :
      (q : Call p.Value → Bool) (path : List String) (test : ChannelEntry → Bool)
      → IsOfEntries v p d Failure WriteFailure q
      → ((path' : List String) (e : ChannelEntry)
          → (q (bundle_added path' e.name) || entry_calls v p d Failure WriteFailure q path' e)
            ≡ (same_path path' path && test e))
      → (st : Staging) (name : String)
      → any q
          (normalize_package v p d Failure WriteFailure
            (recorder p.Value WriteFailure)
            st
            name
            []).0
        ≡ (is_valid_package v p d Failure WriteFailure
              (package_bundles v p st name)
              (package_channels v p st name)
            && any_entry name path test (package_channels v p st name))
  unfolding normalize_package
  calls_of_entries q path test of_entries entry st name =
      elim (Result-cases (validate_package v p d Failure WriteFailure st name)) [
        | is_err e h ↦ rw h (
            rw (sym (validate_package_iff v p d Failure WriteFailure st name) ∙ ap succeeds h) refl)
        | is_ok (bundles, chs) h ↦ rw h (
            rw (sym (validate_package_iff v p d Failure WriteFailure st name) ∙ ap succeeds h) (
              (write_package-Makes v p d Failure WriteFailure q st name bundles chs).made []
              ∙ package_calls_lem v p d Failure WriteFailure q path test of_entries entry st name
                  bundles chs
              ∙ ap (any_entry name path test) (of_validated st name bundles chs h)))
      ]

  is_empty-calls :
      (st : Staging) (name : String)
      → is_empty
          (normalize_package v p d Failure WriteFailure
            (recorder p.Value WriteFailure)
            st
            name
            []).0
        ≡ not (
            is_valid_package v p d Failure WriteFailure
              (package_bundles v p st name)
              (package_channels v p st name))
  unfolding normalize_package package_calls
  is_empty-calls st name =
      elim (Result-cases (validate_package v p d Failure WriteFailure st name)) [
        | is_err e h ↦ rw h (
            rw (sym (validate_package_iff v p d Failure WriteFailure st name) ∙ ap succeeds h) refl)
        | is_ok (bundles, chs) h ↦ rw h (
            rw (sym (validate_package_iff v p d Failure WriteFailure st name) ∙ ap succeeds h) (
              is_empty-any
                (write_package v p d Failure WriteFailure (recorder p.Value WriteFailure) st name
                  bundles chs []).0
              ∙ ap not (
                  (write_package-Makes v p d Failure WriteFailure (λ _. true) st name bundles
                      chs).made
                    [])))
      ]

-- What the handler writes of the channels of a package on a writer that refuses nothing: where the
-- package is valid, a bundle is added to a channel's graph, or a range, exactly if an entry of the
-- channel has it, and an edge exactly if it leads to an entry of the channel from a bundle that the
-- entry replaces or skips. Nothing is written exactly where the package is not valid.
pub normalize_package_lem :
    (v : SemVer) (p : Parsers v) (d : Declcfg) (Failure WriteFailure : Type 0) (st : Staging)
    (name : String)
    → AreUpdates v p d Failure WriteFailure st name
        (normalize_package v p d Failure WriteFailure (recorder p.Value WriteFailure) st name []).0
normalize_package_lem v p d Failure WriteFailure st name = record {
  bundles_added = λ path id.
      calls_of_entries v p d Failure WriteFailure (adds_bundle path id) path
        (λ (e : ChannelEntry). e.name == id)
        (λ _. refl, λ _ _ _ _ _. refl, λ _ _. refl, λ _ _. refl)
        (λ path' e. made_by_bundle v p d Failure WriteFailure path path' id e) st name;
  edges_added = λ path from to.
      calls_of_entries v p d Failure WriteFailure (adds_edge path from to) path (is_update from to)
        (λ _. refl, λ _ _ _ _ _. refl, λ _ _. refl, λ _ _. refl)
        (λ path' e. made_by_edge v p d Failure WriteFailure path path' from to e) st name;
  ranges_added = λ path id range.
      calls_of_entries v p d Failure WriteFailure (adds_range path id range) path
        (has_range id range) (λ _. refl, λ _ _ _ _ _. refl, λ _ _. refl, λ _ _. refl)
        (λ path' e. made_by_range v p d Failure WriteFailure path path' id range e) st name;
  nothing_written = is_empty-calls v p d Failure WriteFailure st name;
}
