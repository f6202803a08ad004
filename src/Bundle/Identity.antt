-- ===== src/Bundle/Identity.antt =====
-- bundle/v1/versionrelease.go and bundle.go
use library_olm.Prelude.{Ordering, String, Option, then_by, compare_strings}
use library_olm.Bundle.Versions.{SemVer}
use library_olm.Bundle.Releases.{Release, compare_releases}

module _ (v : SemVer) where
  open v use {Version, compare_version}

  pub record VersionRelease : Type 0 where
    pub version : Version
    pub release : Release v

  unfoldable pub compare_version_releases : VersionRelease → VersionRelease → Ordering
  compare_version_releases vr other =
      then_by (compare_version vr.version other.version)
        (compare_releases v vr.release other.release)

  pub record NameVersionRelease : Type 0 where
    pub name : String
    pub version : Version
    pub release : Release v

  unfoldable pub version_release : NameVersionRelease → VersionRelease
  version_release nvr = record { version = nvr.version; release = nvr.release }

  unfoldable pub compare_nvrs : NameVersionRelease → NameVersionRelease → Ordering
  unfolding compare_version_releases version_release
  compare_nvrs nvr other =
      then_by (compare_strings nvr.name other.name)
        (compare_version_releases (version_release nvr) (version_release other))

  -- A value of the interface `Bundle`. `deprecated` is the message of a value that also implements
  -- `catalogv1.Deprecated`.
  pub record Bundle : Type 0 where
    pub id : String
    pub nvr : NameVersionRelease
    pub uri : String
    pub deprecated : Option String
