-- ===== src/Fbc/Blobs.antt =====
-- What catalog/v1/fbc uses of operator-registry's declcfg and property, of encoding/json and of
-- image references: parameters, and the blobs with the fields that the code reads.
use library_olm.Prelude.{String, Bool, Option, List, Result}

pub record EntryBlob : Type 0 where
  pub name : String
  pub replaces : String
  pub skips : List String
  pub skip_range : String

pub record ChannelBlob : Type 0 where
  pub name : String
  pub pkg : String
  pub entries : List EntryBlob

-- The type of a property, with its value.
pub record BundleBlob : Type 0 where
  pub name : String
  pub pkg : String
  pub image : String
  pub properties : List (String × String)

pub record DeprecationEntry : Type 0 where
  pub schema : String
  pub name : String
  pub message : String

pub record DeprecationBlob : Type 0 where
  pub pkg : String
  pub entries : List DeprecationEntry

-- `reference.Named`: whether it is a `NamedTagged` or a `Canonical`, and its text.
pub record Reference : Type 0 where
  pub is_tagged : Bool
  pub is_canonical : Bool
  pub text : String

pub record Declcfg : Type 1 where
  -- the blob of a `declcfg.Meta`, and `json.Unmarshal` of it, none on its error
  pub Blob : Type 0
  pub unmarshal_package : Blob → Option String
  pub unmarshal_channel : Blob → Option ChannelBlob
  pub unmarshal_bundle : Blob → Option BundleBlob
  pub unmarshal_deprecation : Blob → Option DeprecationBlob
  -- the version and the release of a property `olm.package`
  pub unmarshal_property : String → Option (String × String)
  pub parse_named : String → Option Reference

module _ (d : Declcfg) where
  pub record Meta : Type 0 where
    pub schema : String
    pub pkg : String
    pub name : String
    pub blob : d.Blob

  -- `IngestExtension`: a callback's result, nil as none, or its error.
  module _ (Value Failure : Type 0) where
    pub record IngestExtension : Type 0 where
      pub on_package : String → Result Failure (Option Value)
      pub on_channel : ChannelBlob → Result Failure (Option Value)
      pub on_bundle : BundleBlob → Result Failure (Option Value)
      pub on_deprecation : DeprecationBlob → Result Failure (Option Value)
      pub on_other : Meta → Result Failure (Option Value)

abbrev pub schema_package : String
schema_package = "olm.package"

abbrev pub schema_channel : String
schema_channel = "olm.channel"

abbrev pub schema_bundle : String
schema_bundle = "olm.bundle"

abbrev pub schema_deprecation : String
schema_deprecation = "olm.deprecations"
