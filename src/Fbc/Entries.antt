-- ===== src/Fbc/Entries.antt =====
-- The calls on a writer that the entries of a package's channels are for, as tests, and which entries
-- make them (catalog/v1/fbc/internal/handler_olm_package.go).
use library_olm.Prelude.{
  String, Bool, true, false, ◌||◌, ◌&&◌, not, List, [], ◌∷◌, any, any-congr, contains, ◌==◌, ◌≡◌,
  refl, ◌∙◌, arith,
}
use library_olm.Bundle.{SemVer}
use library_olm.Sqlite.{Parsers}
use library_olm.Fbc.Blobs.{Declcfg}
use library_olm.Fbc.Staging.{Staging, RawDeprecationEntry}
use library_olm.Fbc.Accessor.{ChannelEntry, ChannelData, package_deprecation_entries}
use library_olm.Fbc.Handler.{ValidatedBundle}
use library_olm.Fbc.Calls.{
  Call, bundle_inserted, graph_created, bundle_added, edge_added, range_added, graph_deprecated,
  bundle_deprecated,
}
use library_olm.Fbc.Making.{
  edge_calls, entry_calls, channel_calls, deprecation_calls, package_calls,
}

abbrev pub same_path : List String → List String → Bool
same_path [] [] = true
same_path [] (y ∷ ys) = false
same_path (x ∷ xs) [] = false
same_path (x ∷ xs) (y ∷ ys) = x == y && same_path xs ys

module _ {Value : Type 0} where
  -- The calls of `AddBundleToGraph`, `AddEdge` and `AddPredecessorRange` with these arguments.
  abbrev pub adds_bundle : List String → String → Call Value → Bool
  adds_bundle path id (bundle_added path' id') = same_path path' path && id' == id
  adds_bundle path id call = false

  abbrev pub adds_edge : List String → String → String → Call Value → Bool
  adds_edge path from to (edge_added path' from' to') =
      same_path path' path && (from' == from && to' == to)
  adds_edge path from to call = false

  abbrev pub adds_range : List String → String → String → Call Value → Bool
  adds_range path id range (range_added path' id' range') =
      same_path path' path && (id' == id && range' == range)
  adds_range path id range call = false

-- An entry is an update from the bundle that it replaces, if any, and from those that it skips.
abbrev pub is_update : String → String → ChannelEntry → Bool
is_update from to e =
    e.name == to && (not (e.replaces == "") && e.replaces == from || contains e.skips from)

abbrev pub has_range : String → String → ChannelEntry → Bool
has_range id range e = e.name == id && (not (e.skip_range == "") && e.skip_range == range)

-- A channel of the package whose path is the one asked for has an entry that passes the test.
abbrev pub any_entry : String → List String → (ChannelEntry → Bool) → List ChannelData → Bool
any_entry name path test chs =
    any (λ (ch : ChannelData). same_path (name ∷ ch.name ∷ []) path && any test ch.entries) chs

module _ {A : Type 0} where
  any-false : (xs : List A) → any (λ x. false) xs ≡ false
  any-false [] = refl
  any-false (x ∷ xs) = any-false xs

  any-and_left : (b : Bool) (f : A → Bool) (xs : List A) → any (λ x. b && f x) xs ≡ (b && any f xs)
  any-and_left b f [] = ground arith
  any-and_left b f (x ∷ xs) = ground (arith, any-and_left b f xs)

module _ (v : SemVer) (p : Parsers v) (d : Declcfg) (Failure WriteFailure : Type 0) where
  any-skips :
      (b c : Bool) (from : String) (skips : List String)
      → any (λ (s : String). false || b && (s == from && c)) skips
        ≡ (b && (c && contains skips from))
  unfolding contains
  any-skips b c from [] = ground arith
  any-skips b c from (s ∷ skips) = ground (arith, any-skips b c from skips)

  any-or :
      {A : Type 0} (f g : A → Bool) (xs : List A)
      → (any f xs || any g xs) ≡ any (λ x. f x || g x) xs
  any-or f g [] = refl
  any-or f g (x ∷ xs) = ground (arith, any-or f g xs)

  pub made_by_edge :
      (path path' : List String) (from to : String) (e : ChannelEntry)
      → (adds_edge {Value = p.Value} path from to (bundle_added path' e.name)
          || entry_calls v p d Failure WriteFailure (adds_edge path from to) path' e)
        ≡ (same_path path' path && is_update from to e)
  unfolding entry_calls edge_calls
  made_by_edge path path' from to e =
      ground (arith, any-skips (same_path path' path) (e.name == to) from e.skips)

  pub made_by_range :
      (path path' : List String) (id range : String) (e : ChannelEntry)
      → (adds_range {Value = p.Value} path id range (bundle_added path' e.name)
          || entry_calls v p d Failure WriteFailure (adds_range path id range) path' e)
        ≡ (same_path path' path && has_range id range e)
  unfolding entry_calls edge_calls
  made_by_range path path' id range e = ground (arith, any-false e.skips)

  pub made_by_bundle :
      (path path' : List String) (id : String) (e : ChannelEntry)
      → (adds_bundle {Value = p.Value} path id (bundle_added path' e.name)
          || entry_calls v p d Failure WriteFailure (adds_bundle path id) path' e)
        ≡ (same_path path' path && e.name == id)
  unfolding entry_calls edge_calls
  made_by_bundle path path' id e = ground (arith, any-false e.skips)

  -- A test that graphs, inserted bundles and deprecations fail.
  abbrev pub IsOfEntries : (Call p.Value → Bool) → Type 0
  IsOfEntries q =
      ((path : List String) → q (graph_created path) ≡ false)
      × ((id pkg version release uri : String)
          → q (bundle_inserted id pkg version release uri) ≡ false)
      × ((path : List String) (message : String) → q (graph_deprecated path message) ≡ false)
      × ((id message : String) → q (bundle_deprecated id message) ≡ false)

  module _ (q : Call p.Value → Bool) (path : List String) (test : ChannelEntry → Bool)
      (of_entries : IsOfEntries q)
      (entry : (path' : List String) (e : ChannelEntry)
        → (q (bundle_added path' e.name) || entry_calls v p d Failure WriteFailure q path' e)
          ≡ (same_path path' path && test e)) where
    channel_calls_lem :
        (name : String) (ch : ChannelData)
        → channel_calls v p d Failure WriteFailure q name ch
          ≡ (same_path (name ∷ ch.name ∷ []) path && any test ch.entries)
    unfolding channel_calls
    channel_calls_lem name ch =
        (rw (of_entries.0 (name ∷ ch.name ∷ [])) (
          any-or (λ (e : ChannelEntry). q (bundle_added (name ∷ ch.name ∷ []) e.name))
            (entry_calls v p d Failure WriteFailure q (name ∷ ch.name ∷ [])) ch.entries))
        ∙ any-congr _ _ ch.entries (entry (name ∷ ch.name ∷ []))
        ∙ any-and_left (same_path (name ∷ ch.name ∷ []) path) test ch.entries

    deprecation_calls_lem :
        (name : String) (r : RawDeprecationEntry)
        → deprecation_calls v p d Failure WriteFailure q name r ≡ false
    unfolding deprecation_calls
    deprecation_calls_lem name r = ground (
      arith,
      of_entries.2 (name ∷ []) r.message,
      of_entries.2 (name ∷ r.name ∷ []) r.message,
      of_entries.3 r.name r.message,
    )

    pub package_calls_lem :
        (st : Staging) (name : String) (bundles : List ValidatedBundle) (chs : List ChannelData)
        → package_calls v p d Failure WriteFailure q st name bundles chs
          ≡ any_entry name path test chs
    unfolding package_calls
    package_calls_lem st name bundles chs = ground (
      arith,
      of_entries.0 (name ∷ []),
      any-congr _ _ bundles
          (λ (b : ValidatedBundle). of_entries.1 b.name b.pkg b.version b.release b.uri),
      any-false bundles,
      any-congr _ _ chs (channel_calls_lem name),
      any-congr _ _ (package_deprecation_entries v p st name) (deprecation_calls_lem name),
      any-false (package_deprecation_entries v p st name),
    )
