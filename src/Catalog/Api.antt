-- ===== src/Catalog/Api.antt =====
-- catalog/v1/catalog.go and store.go: the interfaces `UpdateGraph`, `CompositeUpdateGraph` and
-- `Catalog`. An implementation is a value of `Catalogs`; an iterator is the list of what it yields.
use library_olm.Prelude.{String, Option, List, Result, ℤ}
use library_olm.Bundle.{SemVer, NameVersionRelease, Bundle}

module _ (v : SemVer) where
  -- the interface `BundleIdentity`
  pub record BundleIdentity : Type 0 where
    pub id : String
    pub nvr : NameVersionRelease v

  pub record Catalogs : Type 1 where
    pub Graph : Type 0
    pub Error : Type 0
    pub list_bundles : Graph → List (Result Error (Bundle v))
    pub successors : Graph → BundleIdentity → List (Result Error (Bundle v))
    -- the type assertion to `CompositeUpdateGraph`, with the method `GetGraph` if it holds
    pub composite : Graph → Option (String → Result Error Graph)

  module _ (c : Catalogs) where
    open c use {Graph, Error}

    pub record Catalog : Type 0 where
      pub name : String
      pub priority : ℤ
      pub get_package : String → Result Error Graph
