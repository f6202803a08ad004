-- ===== src/Bundle/Releases.antt =====
-- bundle/v1/release.go
use Prim.Native.Char.{Char, code}
use Prim.Native.String
use library_olm.Prelude.{
  compare, Ordering, lt, eq, gt, String, ◌&&◌, Option, none, some, List, [], ◌∷◌, map, Result, ok,
  err, ◌>>=◌, length, is_empty, then_by, nat_eq, if◌then◌else◌, ◌==◌,
}
use library_olm.Bundle.Versions.{SemVer}

-- `strings.Split(s, ".")`
abbrev pub onto_first : Char → List String → List String
onto_first c [] = String.◌∷◌ c String.[] ∷ []
onto_first c (x ∷ xs) = String.◌∷◌ c x ∷ xs

unfoldable pub split_dots : String → List String
split_dots String.[] = "" ∷ []
split_dots (String.◌∷◌ c s) =
    let rest = split_dots s in if nat_eq (code c) b'.' then "" ∷ rest else onto_first c rest

-- `strings.Join(parts, ".")`
unfoldable pub join_dots : List String → String
join_dots [] = ""
join_dots (x ∷ []) = x
join_dots (x ∷ y ∷ ys) = String.◌++◌ x (String.◌++◌ "." (join_dots (y ∷ ys)))

-- "invalid release identifier", with the identifier
pub data ReleaseError : Type 0 where
  invalid_identifier : String → ReleaseError

module _ (v : SemVer) where
  open v use {PRVersion, compare_pr, new_pr_version, pr_string}

  pub record Release : Type 0 where
    pub ids : List PRVersion

  unfoldable pub or_invalid : String → Option PRVersion → Result ReleaseError PRVersion
  or_invalid p none = err (invalid_identifier p)
  or_invalid p (some pr) = ok pr

  -- the loop of `ParseRelease`
  unfoldable pub parse_ids : List String → Result ReleaseError (List PRVersion)
  unfolding or_invalid
  parse_ids [] = ok []
  parse_ids (p ∷ ps) =
      let rest = parse_ids ps in
      or_invalid p (new_pr_version p) >>= λ pr. rest >>= λ prs. ok (pr ∷ prs)

  unfoldable pub parse_release : String → Result ReleaseError Release
  unfolding parse_ids
  parse_release s =
      if s == ""
      then ok (record { ids = [] })
      else parse_ids (split_dots s) >>= λ ids. ok (record { ids = ids })

  -- the loop of `Compare`, over the identifiers that both have
  unfoldable pub compare_common : List PRVersion → List PRVersion → Ordering
  compare_common (x ∷ xs) (y ∷ ys) = then_by (compare_pr x y) (compare_common xs ys)
  compare_common _ _ = eq

  unfoldable pub compare_releases : Release → Release → Ordering
  unfolding compare_common
  compare_releases r other =
      if is_empty r.ids && is_empty other.ids
      then eq
      else if is_empty r.ids
      then lt
      else if is_empty other.ids
      then gt
      else then_by (compare_common r.ids other.ids) (compare (length r.ids) (length other.ids))

  unfoldable pub release_string : Release → String
  release_string r = if is_empty r.ids then "" else join_dots (map pr_string r.ids)
