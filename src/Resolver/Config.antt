-- ===== src/Resolver/Config.antt =====
-- The options of `Resolve`, and what it uses of github.com/Masterminds/semver/v3.
use library_olm.Prelude.{ℕ, String, Bool, true, false, Option, none, some, List, [], ◌∷◌}
use library_olm.Bundle.{SemVer}
use library_olm.Catalog.{BundleIdentity}

-- `Version` with `New`, and `Constraints` with `Check`.
pub record Masterminds : Type 1 where
  pub MmVersion : Type 0
  pub Constraints : Type 0
  pub new : ℕ → ℕ → ℕ → String → String → MmVersion
  pub check : Constraints → MmVersion → Bool

module _ (v : SemVer) (m : Masterminds) where
  open m use {Constraints}

  pub record ResolveConfig : Type 0 where
    pub graphs : List (List String)
    pub constraint : Option Constraints
    pub from : Option (BundleIdentity v)
    pub prefer_non_deprecated_bundles : Bool

  pub data ResolveOption : Type 0 where
    with_graphs : List (List String) → ResolveOption
    with_masterminds_version_constraint : Constraints → ResolveOption
    with_successors_of : BundleIdentity v → ResolveOption
    prefer_non_deprecated : ResolveOption

  unfoldable pub apply_resolve_option : ResolveOption → ResolveConfig → ResolveConfig
  apply_resolve_option (with_graphs paths) c = record c { graphs = paths }
  apply_resolve_option (with_masterminds_version_constraint constraint) c = record c {
    constraint = some constraint;
  }
  apply_resolve_option (with_successors_of from) c = record c { from = some from }
  apply_resolve_option prefer_non_deprecated c = record c { prefer_non_deprecated_bundles = true }

  abbrev pub zero_config : ResolveConfig
  zero_config = record {
    graphs = [];
    constraint = none;
    from = none;
    prefer_non_deprecated_bundles = false;
  }

  -- the loop over the options
  unfoldable pub apply_options : List ResolveOption → ResolveConfig → ResolveConfig
  apply_options [] c = c
  apply_options (o ∷ os) c = apply_options os (apply_resolve_option o c)
