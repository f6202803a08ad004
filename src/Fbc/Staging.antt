-- ===== src/Fbc/Staging.antt =====
-- catalog/v1/fbc/internal/db.go: the raw tables, and the statements that insert into them.
use Prim.Native.Char.{Char}
use library_olm.Prelude.{
  String, Bool, ◌&&◌, Option, none, some, List, [], ◌∷◌, ◌++◌, any, join, Result, ok, err, ◌>>=◌,
  if◌then◌else◌, ◌==◌,
}
use library_olm.Fbc.Blobs.{EntryBlob, ChannelBlob, DeprecationEntry, DeprecationBlob}

pub record RawPackage : Type 0 where
  pub package_name : String
  pub ext_data : Option String

pub record RawChannel : Type 0 where
  pub name : String
  pub package_name : String
  pub ext_data : Option String

pub record RawEntry : Type 0 where
  pub channel_name : String
  pub package_name : String
  pub bundle_name : String
  pub replaces : String
  pub skips : String
  pub skip_range : String

pub record RawBundle : Type 0 where
  pub name : String
  pub package_name : String
  pub version : String
  pub release : String
  pub image : String
  pub ext_data : Option String

pub record RawDeprecation : Type 0 where
  pub package_name : String
  pub ext_data : Option String

pub record RawDeprecationEntry : Type 0 where
  pub package_name : String
  pub schema : String
  pub name : String
  pub message : String

pub record RawOther : Type 0 where
  pub schema : String
  pub package_name : String
  pub name : String
  pub ext_data : Option String

pub record Staging : Type 0 where
  pub packages : List RawPackage
  pub channels : List RawChannel
  pub entries : List RawEntry
  pub bundles : List RawBundle
  pub deprecations : List RawDeprecation
  pub deprecation_entries : List RawDeprecationEntry
  pub others : List RawOther

abbrev pub no_rows : Staging
no_rows = record {
  packages = [];
  channels = [];
  entries = [];
  bundles = [];
  deprecations = [];
  deprecation_entries = [];
  others = [];
}

-- A primary key that is there, or an empty message.
pub data RawError : Type 0 where
  key_violated : RawError
  empty_message : RawError

-- The statements of one blob, in one transaction.
abbrev pub Insert : Type 0
Insert = Staging → Result RawError Staging

abbrev pub comma : Char
comma = ","

unfoldable pub insert_package : String → Option String → Insert
insert_package name ext st =
    if any (λ (r : RawPackage). r.package_name == name) st.packages
    then err key_violated
    else ok (record st {
      packages = st.packages ++ (record { package_name = name; ext_data = ext } ∷ []);
    })

abbrev pub raw_entry : String → String → EntryBlob → RawEntry
raw_entry channel pkg e = record {
  channel_name = channel;
  package_name = pkg;
  bundle_name = e.name;
  replaces = e.replaces;
  skips = join comma e.skips;
  skip_range = e.skip_range;
}

abbrev pub same_entry : RawEntry → RawEntry → Bool
same_entry r s =
    r.package_name == s.package_name
    && (r.channel_name == s.channel_name && r.bundle_name == s.bundle_name)

unfoldable pub insert_entry : RawEntry → Insert
insert_entry row st =
    if any (same_entry row) st.entries
    then err key_violated
    else ok (record st { entries = st.entries ++ (row ∷ []) })

unfoldable pub insert_entries : String → String → List EntryBlob → Insert
unfolding insert_entry
insert_entries channel pkg [] st = ok st
insert_entries channel pkg (e ∷ es) st =
    insert_entry (raw_entry channel pkg e) st >>= insert_entries channel pkg es

unfoldable pub insert_channel : ChannelBlob → Option String → Insert
unfolding insert_entries
insert_channel ch ext st =
    if any (λ (r : RawChannel). r.package_name == ch.pkg && r.name == ch.name) st.channels
    then err key_violated
    else insert_entries ch.name ch.pkg ch.entries (record st {
      channels =
          st.channels ++ (record { name = ch.name; package_name = ch.pkg; ext_data = ext } ∷ []);
    })

unfoldable pub insert_bundle : RawBundle → Insert
insert_bundle row st =
    if any (λ (r : RawBundle). r.package_name == row.package_name && r.name == row.name) st.bundles
    then err key_violated
    else ok (record st { bundles = st.bundles ++ (row ∷ []) })

unfoldable pub insert_deprecation_entries : String → List DeprecationEntry → Insert
insert_deprecation_entries pkg [] st = ok st
insert_deprecation_entries pkg (e ∷ es) st =
    let rest = insert_deprecation_entries pkg es (record st {
      deprecation_entries =
          st.deprecation_entries
          ++ (record { package_name = pkg; schema = e.schema; name = e.name; message = e.message }
              ∷ []);
    }) in
    if e.message == "" then err empty_message else rest

-- A row of raw_olm_deprecation is inserted only with extension data.
abbrev pub insert_deprecation_ext : String → Option String → Insert
insert_deprecation_ext pkg none st = ok st
insert_deprecation_ext pkg (some ext) st = ok (record st {
  deprecations = st.deprecations ++ (record { package_name = pkg; ext_data = some ext } ∷ []);
})

unfoldable pub insert_deprecation : DeprecationBlob → Option String → Insert
unfolding insert_deprecation_entries
insert_deprecation blob ext st =
    insert_deprecation_entries blob.pkg blob.entries st >>= insert_deprecation_ext blob.pkg ext

unfoldable pub insert_other : RawOther → Insert
insert_other row st = ok (record st { others = st.others ++ (row ∷ []) })
