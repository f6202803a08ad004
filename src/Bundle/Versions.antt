-- ===== src/Bundle/Versions.antt =====
-- What bundle/v1 uses of github.com/blang/semver/v4, a third-party package: a parameter.
use library_olm.Prelude.{ℕ, List, String, Ordering, Option, some, ◌≡◌, IsOrder}

-- `PRVersion` and `Version` with their `Compare`, `NewPRVersion` (none on its error) and `String`.
pub record SemVer : Type 1 where
  pub PRVersion : Type 0
  pub Version : Type 0
  pub compare_pr : PRVersion → PRVersion → Ordering
  pub compare_version : Version → Version → Ordering
  pub new_pr_version : String → Option PRVersion
  pub pr_string : PRVersion → String
  -- the fields of `Version`
  pub major : Version → ℕ
  pub minor : Version → ℕ
  pub patch : Version → ℕ
  pub pre : Version → List PRVersion
  pub build : Version → List String

-- Precedence is a total order of semantic versions and of their identifiers (semver.org, item 11).
pub record IsPrecedence (v : SemVer) : Type 0 where
  pub pr_order : IsOrder v.compare_pr
  pub version_order : IsOrder v.compare_version

-- An identifier prints as the text that it was read from: `NewPRVersion` refuses leading zeros.
pub record IsPrinted (v : SemVer) : Type 0 where
  pub printed : (s : String) (p : v.PRVersion) → v.new_pr_version s ≡ some p → v.pr_string p ≡ s
