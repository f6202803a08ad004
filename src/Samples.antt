-- ===== src/Samples.antt =====
-- Concrete packages for the tests: versions as lists of numbers, catalogs whose graphs are lists of
-- bundles with named children, and validations of a few names.
use library_olm.Prelude.{
  ℕ, compare, String, true, false, Option, none, some, List, [], ◌∷◌, Result, ok, err,
  compare_strings, compare_strings-IsOrder, compare-IsOrder, if◌then◌else◌, ◌==◌, contains, ℤ,
  nat_eq, ◌≡◌, Bool-cases, inl, inr,
}
use library_olm.Bundle.{SemVer, IsPrecedence, IsPrinted, Bundle}
use library_olm.Bundle.Order.{lexicographic, lexicographic-IsOrder}
use library_olm.Catalog.{Catalogs, Catalog}
use library_olm.Resolver.{Masterminds}
use library_olm.Registry.{Kube}
use library_olm.Sqlite.{Parsers}
use library_olm.Fbc.{Declcfg, Meta, ChannelBlob, BundleBlob}

abbrev first_number : List ℕ → ℕ
first_number [] = 0
first_number (n ∷ ns) = n

abbrev identifier : String → Option String
identifier s = if s == "" then none else some s

abbrev pub semver : SemVer
semver = record {
  PRVersion = String;
  Version = List ℕ;
  compare_pr = compare_strings;
  compare_version = lexicographic compare;
  new_pr_version = identifier;
  pr_string = λ s. s;
  major = first_number;
  minor = λ v. 0;
  patch = λ v. 0;
  pre = λ v. [];
  build = λ v. [];
}

pub semver-IsPrecedence : IsPrecedence semver
semver-IsPrecedence = record {
  pr_order = compare_strings-IsOrder;
  version_order = lexicographic-IsOrder compare compare-IsOrder;
}

identifier-same : (s p : String) → identifier s ≡ some p → p ≡ s
identifier-same s p h = elim (Bool-cases (s == "")) [
  | inl e ↦ let absent : none ≡ some p = rw e at h in cc
  | inr e ↦ let same : some s ≡ some p = rw e at h in cc
]

pub semver-IsPrinted : IsPrinted semver
semver-IsPrinted = record { printed = identifier-same }

-- A constraint is the major version that it asks for.
abbrev pub masterminds : Masterminds
masterminds = record {
  MmVersion = ℕ;
  Constraints = ℕ;
  new = λ major minor patch pre build. major;
  check = λ constraint version. nat_eq constraint version;
}

-- A graph is a list of bundles, with the names of its children: each child has the same bundles.
pub record SampleGraph : Type 0 where
  pub bundles : List (Bundle semver)
  pub children : List String

abbrev yield_all : List (Bundle semver) → List (Result String (Bundle semver))
yield_all [] = []
yield_all (b ∷ bs) = ok b ∷ yield_all bs

abbrev get_child : SampleGraph → String → Result String SampleGraph
get_child g name =
    if contains g.children name
    then ok (record { bundles = g.bundles; children = [] })
    else err "not found"

abbrev pub catalogs : Catalogs semver
catalogs = record {
  Graph = SampleGraph;
  Error = String;
  list_bundles = λ g. yield_all g.bundles;
  successors = λ g from. yield_all g.bundles;
  composite = λ g. some (get_child g);
}

abbrev pub bundle : String → String → List ℕ → Bundle semver
bundle id name version = record {
  id = id;
  nvr = record { name = name; version = version; release = record { ids = [] } };
  uri = "";
  deprecated = none;
}

abbrev pub catalog : String → ℕ → List String → SampleGraph → Catalog semver catalogs
catalog name priority packages graph = record {
  name = name;
  priority = ℤ.pos priority;
  get_package = λ p. if contains packages p then ok graph else err "not found";
}

-- Every field that is only carried is a string; a name of no characters is invalid.
abbrev pub kube : Kube
kube = record {
  EnvSource = String;
  EnvFromSource = String;
  MountSettings = String;
  VolumeSource = String;
  Toleration = String;
  Resources = String;
  NodeSelectorTerm = String;
  PreferredTerm = String;
  PodTerm = String;
  WeightedPodTerm = String;
  ContainerSettings = String;
  PodSettings = String;
  DeploymentSettings = String;
  WebhookSettings = String;
  RuleSettings = String;
  Conversion = String;
  CrdSettings = String;
  ObjectSettings = String;
  env_from_equal = λ a b. a == b;
  toleration_equal = λ a b. a == b;
  is_dns1123_subdomain = λ s. if s == "" then "empty" ∷ [] else [];
  is_dns1123_label = λ s. if s == "" then "empty" ∷ [] else [];
  is_supported = λ kind. (kind == "ConfigMap", true);
  named_port_value = λ s. ℤ.pos 0;
  YamlError = String;
  unmarshal_namespace = λ s. ok (record { name = s; labels = []; annotations = [] });
}

-- Values are texts, a version is one where it is not empty, and the one range is that of major 1.
abbrev pub parsers : Parsers semver
parsers = record {
  Value = String;
  marshal = some;
  parse_version = λ s. if s == "" then none else some (1 ∷ []);
  zero_version = 0 ∷ [];
  parse_range = λ s. if s == "1" then some (λ v. nat_eq (first_number v) 1) else none;
  first_row = λ ids. elim ids [ [] ↦ none | id ∷ rest ↦ some id ];
  listed = λ A rows. rows;
}

pub data SampleBlob : Type 0 where
  package_blob : String → SampleBlob
  channel_blob : ChannelBlob → SampleBlob
  bundle_blob : BundleBlob → SampleBlob

abbrev blob_package : SampleBlob → Option String
blob_package (package_blob name) = some name
blob_package (channel_blob ch) = none
blob_package (bundle_blob b) = none

abbrev blob_channel : SampleBlob → Option ChannelBlob
blob_channel (package_blob name) = none
blob_channel (channel_blob ch) = some ch
blob_channel (bundle_blob b) = none

abbrev blob_bundle : SampleBlob → Option BundleBlob
blob_bundle (package_blob name) = none
blob_bundle (channel_blob ch) = none
blob_bundle (bundle_blob b) = some b

abbrev pub declcfg : Declcfg
declcfg = record {
  Blob = SampleBlob;
  unmarshal_package = blob_package;
  unmarshal_channel = blob_channel;
  unmarshal_bundle = blob_bundle;
  unmarshal_deprecation = λ b. none;
  unmarshal_property = λ s. some (s, "");
  parse_named = λ s. some (record { is_tagged = true; is_canonical = false; text = s });
}

abbrev pub sample_channel : ChannelBlob
sample_channel = record {
  name = "stable";
  pkg = "p";
  entries =
      record { name = "p.v1"; replaces = "p.v0"; skips = "p.a" ∷ "p.b" ∷ []; skip_range = "1" }
      ∷ [];
}

abbrev sample_bundle : BundleBlob
sample_bundle = record {
  name = "p.v1";
  pkg = "p";
  image = "r/p:v1";
  properties = ("olm.package", "1") ∷ [];
}

-- The blobs of a package with one channel and one bundle.
abbrev pub sample_metas : List (Meta declcfg)
sample_metas =
    record { schema = "olm.package"; pkg = ""; name = "p"; blob = package_blob "p" }
    ∷ record {
      schema = "olm.channel";
      pkg = "p";
      name = "stable";
      blob = channel_blob sample_channel;
    }
    ∷ record { schema = "olm.bundle"; pkg = "p"; name = "p.v1"; blob = bundle_blob sample_bundle }
    ∷ []
