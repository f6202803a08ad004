-- ===== src/Fbc/Validity.antt =====
-- Which packages the handler accepts, without its loops and errors.
use library_olm.Prelude.{
  String, Bool, false, ◌||◌, ◌&&◌, not, Option, none, some, List, [], ◌∷◌, ◌++◌, map, all, contains,
  is_empty, is_some, succeeds, Result, ok, err, Result-cases, is_err, is_ok, succeeds-both,
  >>=-eq-ok, ◌>>=◌, if◌then◌else◌, ◌==◌, ◌≡◌, refl, ap, sym, ◌∙◌, arith,
}
use library_olm.Bundle.{SemVer, parse_release, Release, ReleaseError}
use library_olm.Sqlite.{Parsers}
use library_olm.Fbc.Blobs.{Declcfg, Reference}
use library_olm.Fbc.Staging.{Staging, RawBundle}
use library_olm.Fbc.Accessor.{ChannelEntry, ChannelData, package_bundles, package_channels}
use library_olm.Fbc.Handler.{
  ValidatedBundle, missing_in, missing_entries, bundle_names, parsed_release, check_image,
  validate_bundle, validate_bundles, validate_entries, check_ranges, check_skip_ranges,
  validate_package,
}

abbrev pub entry_is_known : List String → ChannelEntry → Bool
entry_is_known names e = contains names e.name

missing_in-nil :
    (names : List String) (channel : String) (es : List ChannelEntry)
    → is_empty (missing_in names channel es) ≡ all (entry_is_known names) es
unfolding missing_in
missing_in-nil names channel [] = refl
missing_in-nil names channel (e ∷ es) = ground (arith, missing_in-nil names channel es)

is_empty-append {ℓ} :
    {A : Type ℓ} (xs ys : List A) → is_empty (xs ++ ys) ≡ (is_empty xs && is_empty ys)
is_empty-append [] ys = refl
is_empty-append (x ∷ xs) ys = refl

missing_entries-nil :
    (names : List String) (chs : List ChannelData)
    → is_empty (missing_entries names chs)
      ≡ all (λ (ch : ChannelData). all (entry_is_known names) ch.entries) chs
unfolding missing_entries
missing_entries-nil names [] = refl
missing_entries-nil names (ch ∷ chs) =
    is_empty-append (missing_in names ch.name ch.entries) (missing_entries names chs)
    ∙ (rw (missing_in-nil names ch.name ch.entries, missing_entries-nil names chs) refl)

module _ (v : SemVer) (p : Parsers v) (d : Declcfg) (Failure WriteFailure : Type 0) where
  abbrev pub has_tag : Option Reference → Bool
  has_tag none = false
  has_tag (some ref) = ref.is_tagged || ref.is_canonical

  abbrev pub is_valid_bundle : RawBundle → Bool
  is_valid_bundle b =
      is_some (p.parse_version b.version)
      && ((b.release == "" || succeeds (parse_release v b.release))
          && (not (b.image == "") && has_tag (d.parse_named b.image)))

  abbrev pub range_is_valid : ChannelEntry → Bool
  range_is_valid e = e.skip_range == "" || is_some (p.parse_range e.skip_range)

  succeeds-parsed_release :
      (name : String) (r : Result ReleaseError (Release v))
      → succeeds (parsed_release v p d Failure WriteFailure name r) ≡ succeeds r
  succeeds-parsed_release name (err e) = refl
  succeeds-parsed_release name (ok r) = refl

  succeeds-validate_bundle :
      (b : RawBundle) → succeeds (validate_bundle v p d Failure WriteFailure b) ≡ is_valid_bundle b
  unfolding validate_bundle check_image
  succeeds-validate_bundle b =
      ground (arith, succeeds-parsed_release b.name (parse_release v b.release))

  name-validate_bundle :
      (b : RawBundle) (vb : ValidatedBundle)
      → validate_bundle v p d Failure WriteFailure b ≡ ok vb
      → vb.name ≡ b.name
  unfolding validate_bundle
  name-validate_bundle b vb h = ground arith

  -- What is validated has the names of the rows.
  names-validate_bundles :
      (rows : List RawBundle) (bs : List ValidatedBundle)
      → validate_bundles v p d Failure WriteFailure rows ≡ ok bs
      → bundle_names bs ≡ map (λ (b : RawBundle). b.name) rows
  unfolding validate_bundles bundle_names
  names-validate_bundles [] bs h = let e : [] ≡ bs = cc in rw (← e) refl
  names-validate_bundles (r ∷ rows) bs h =
      let (vb, e, k) = >>=-eq-ok (validate_bundle v p d Failure WriteFailure r) _ h in
      let (vbs, e', k') = >>=-eq-ok (validate_bundles v p d Failure WriteFailure rows) _ k in
      let same : vb ∷ vbs ≡ bs = cc in
      rw (← same) (cc (name-validate_bundle r vb e, names-validate_bundles rows vbs e'))

  succeeds-validate_bundles :
      (rows : List RawBundle)
      → succeeds (validate_bundles v p d Failure WriteFailure rows) ≡ all is_valid_bundle rows
  unfolding validate_bundles
  succeeds-validate_bundles [] = refl
  succeeds-validate_bundles (b ∷ bs) =
      succeeds-both (validate_bundle v p d Failure WriteFailure b)
        (validate_bundles v p d Failure WriteFailure bs) (λ vb vbs. vb ∷ vbs)
      ∙ (rw (succeeds-validate_bundle b, succeeds-validate_bundles bs) refl)

  succeeds-check_ranges :
      (channel : String) (es : List ChannelEntry)
      → succeeds (check_ranges v p d Failure WriteFailure channel es) ≡ all range_is_valid es
  unfolding check_ranges
  succeeds-check_ranges channel [] = refl
  succeeds-check_ranges channel (e ∷ es) = ground (arith, succeeds-check_ranges channel es)

  succeeds-check_skip_ranges :
      (chs : List ChannelData)
      → succeeds (check_skip_ranges v p d Failure WriteFailure chs)
        ≡ all (λ (ch : ChannelData). all range_is_valid ch.entries) chs
  unfolding check_skip_ranges
  succeeds-check_skip_ranges [] = refl
  succeeds-check_skip_ranges (ch ∷ chs) =
      ground (arith, succeeds-check_ranges ch.name ch.entries, succeeds-check_skip_ranges chs)

  -- The rows of a package's bundles and channels are valid: each bundle has a version, a release or
  -- none, and a tagged or canonical image; each channel entry names a bundle of the package and has a
  -- valid range or none.
  abbrev pub is_valid_package : List RawBundle → List ChannelData → Bool
  is_valid_package rows chs =
      all is_valid_bundle rows
      && (all
            (λ (ch : ChannelData).
              all (entry_is_known (map (λ (b : RawBundle). b.name) rows)) ch.entries)
            chs
          && all (λ (ch : ChannelData). all range_is_valid ch.entries) chs)

  -- What `Normalize` checks before it writes succeeds exactly for the packages whose rows are valid:
  -- every bundle has a version that parses, no release or one that parses, and an image that parses
  -- and is tagged or canonical; every channel entry names one of the package's bundles and has no
  -- skip range or one that parses.
  pub validate_package_iff :
      (st : Staging) (name : String)
      → succeeds (validate_package v p d Failure WriteFailure st name)
        ≡ is_valid_package (package_bundles v p st name) (package_channels v p st name)
  unfolding validate_package validate_entries
  validate_package_iff st name =
      elim (Result-cases (validate_bundles v p d Failure WriteFailure rows)) [
        | is_err e h ↦ rw h (rw (sym (succeeds-validate_bundles rows) ∙ ap succeeds h) refl)
        | is_ok bs h ↦
            let valid = sym (succeeds-validate_bundles rows) ∙ ap succeeds h in
            let known = missing_entries-nil (map (λ (b : RawBundle). b.name) rows) chs in
            rw (h, valid, names-validate_bundles rows bs h)
              (rw (← known, ← (succeeds-check_skip_ranges chs)) (both _ _ _ _))
      ]
    where
      rows : List RawBundle
      rows = package_bundles v p st name

      chs : List ChannelData
      chs = package_channels v p st name

      both :
          {E : Type 0} {A : Type 0} (missing : List (String × String)) (r : Result E Unit) (e : E)
          (a : A)
          → succeeds ((if is_empty missing then ok tt else err e) >>= λ _. r >>= λ _. ok a)
            ≡ (is_empty missing && succeeds r)
      both [] (err f) e a = refl
      both [] (ok x) e a = refl
      both (x ∷ xs) r e a = refl
