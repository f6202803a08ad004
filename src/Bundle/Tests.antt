-- ===== src/Bundle/Tests.antt =====
-- Releases and versions, and the theorems on them.
use library_olm.Prelude.{
  String, compare_strings, ◌≡◌, ◌≢◌, ◌↔◌, refl, true, is_some, all, [], ◌∷◌, ok, IsOrder,
}
use library_olm.Bundle.Releases.{
  Release, parse_release, split_dots, compare_releases, release_string,
}
use library_olm.Bundle.Identity.{compare_nvrs}
use library_olm.Bundle.Order.{lexicographic, compare_releases-lexicographic, compare_nvrs-IsOrder}
use library_olm.Bundle.RoundTrip.{string-parse_release, parse_release_iff}
use library_olm.Samples.{semver, semver-IsPrecedence, semver-IsPrinted}

abbrev one_two : Release semver
one_two = record { ids = "1" ∷ "2" ∷ [] }

parsed : parse_release semver "1.2" ≡ ok one_two
unfolding parse_release split_dots
parsed = refl

compare_nvrs-IsOrder_example : IsOrder (compare_nvrs semver)
compare_nvrs-IsOrder_example = compare_nvrs-IsOrder semver semver-IsPrecedence

compare_releases-lexicographic_example :
    compare_releases semver one_two (record { ids = "1" ∷ [] })
    ≡ lexicographic compare_strings ("1" ∷ "2" ∷ []) ("1" ∷ [])
compare_releases-lexicographic_example =
    compare_releases-lexicographic semver one_two (record { ids = "1" ∷ [] })

string-parse_release_example : release_string semver one_two ≡ "1.2"
string-parse_release_example = string-parse_release semver semver-IsPrinted "1.2" one_two parsed

abbrev dotted : String
dotted = "1..2"

dotted-ne-empty : dotted ≢ ""
dotted-ne-empty h = cc

parse_release_iff_example :
    ((r : Release semver) × (parse_release semver dotted ≡ ok r))
    ↔ (all (λ p. is_some (semver.new_pr_version p)) (split_dots dotted) ≡ true)
parse_release_iff_example = parse_release_iff semver dotted dotted-ne-empty
