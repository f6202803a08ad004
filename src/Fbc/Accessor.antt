-- ===== src/Fbc/Accessor.antt =====
-- catalog/v1/fbc/internal/accessor.go: the rows of one package in the staging database. No query has
-- an order, so that the rows come in the order that `listed` gives them. Iterators are lists of what
-- they yield; the adapters of accessor_adapter.go yield the same.
use library_olm.Prelude.{
  String, ◌&&◌, Option, none, some, List, [], map, keep, split, if◌then◌else◌, ◌==◌,
}
use library_olm.Bundle.{SemVer}
use library_olm.Sqlite.{Parsers, query_row}
use library_olm.Fbc.Staging.{
  Staging, RawPackage, RawChannel, RawEntry, RawBundle, RawDeprecation, RawDeprecationEntry,
  RawOther, comma,
}

-- `channelEntryAccessor`
pub record ChannelEntry : Type 0 where
  pub name : String
  pub replaces : String
  pub skips : List String
  pub skip_range : String

-- `channelAccessor` with its entries
pub record ChannelData : Type 0 where
  pub name : String
  pub entries : List ChannelEntry

-- `skips`, as the column has them
unfoldable pub split_skips : String → List String
split_skips s = if s == "" then [] else split comma s

abbrev pub channel_entry : RawEntry → ChannelEntry
channel_entry r = record {
  name = r.bundle_name;
  replaces = r.replaces;
  skips = split_skips r.skips;
  skip_range = r.skip_range;
}

module _ (st : Staging) (package_name : String) where
  abbrev ext_of : Option RawPackage → Option (Option String)
  ext_of none = none
  ext_of (some r) = some r.ext_data

  -- `ExtData`, none where the package has no row
  unfoldable pub package_ext_data : Option (Option String)
  unfolding query_row
  package_ext_data =
      ext_of (query_row (λ (r : RawPackage). r.package_name == package_name) st.packages)

module _ (v : SemVer) (p : Parsers v) (st : Staging) (package_name : String) where
  unfoldable pub package_bundles : List RawBundle
  package_bundles =
      p.listed RawBundle (keep (λ (r : RawBundle). r.package_name == package_name) st.bundles)

  unfoldable pub channel_entries : String → List ChannelEntry
  unfolding split_skips
  channel_entries channel = map channel_entry (
      p.listed RawEntry (
        keep (λ (r : RawEntry). r.package_name == package_name && r.channel_name == channel)
          st.entries))

  unfoldable pub package_channels : List ChannelData
  unfolding channel_entries
  package_channels =
      map (λ (r : RawChannel). record { name = r.name; entries = channel_entries r.name })
        (p.listed RawChannel
          (keep (λ (r : RawChannel). r.package_name == package_name) st.channels))

  unfoldable pub package_deprecations : List RawDeprecation
  package_deprecations =
      p.listed RawDeprecation
        (keep (λ (r : RawDeprecation). r.package_name == package_name) st.deprecations)

  unfoldable pub package_deprecation_entries : List RawDeprecationEntry
  package_deprecation_entries =
      p.listed RawDeprecationEntry
        (keep (λ (r : RawDeprecationEntry). r.package_name == package_name) st.deprecation_entries)

  unfoldable pub package_others : List RawOther
  package_others =
      p.listed RawOther (keep (λ (r : RawOther). r.package_name == package_name) st.others)
