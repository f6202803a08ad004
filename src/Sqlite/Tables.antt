-- ===== src/Sqlite/Tables.antt =====
-- catalog/v1/sqlite/content.go and metadata.go: the tables, with the rows in the order of their row
-- ids, and the constraints that the statements of the code meet.
use library_olm.Prelude.{
  ℕ, zero, suc, String, Bool, false, ◌&&◌, Option, none, some, List, [], ◌∷◌, ◌++◌, ℤ, any, nat_eq,
  if◌then◌else◌, ◌==◌,
}
use library_olm.Bundle.{SemVer}

-- What the store uses of third-party code and of encoding/json, for versions `v`.
pub record Parsers (v : SemVer) : Type 1 where
  -- the type `any`, and `json.Marshal`, none on its error
  pub Value : Type 0
  pub marshal : Value → Option String
  -- `Parse` and `ParseRange` of blang/semver, none on their errors, and its zero `Version`
  pub parse_version : String → Option v.Version
  pub zero_version : v.Version
  pub parse_range : String → Option (v.Version → Bool)
  -- the row that SQLite takes of a scalar subquery with several: no order is given
  pub first_row : List ℕ → Option ℕ
  -- the rows of a query without `ORDER BY`, in the order that SQLite gives them
  pub listed : (A : Type 0) → List A → List A

pub record MetadataRow : Type 0 where
  pub name : String
  pub uri : String
  pub digest : String
  pub priority : ℤ

pub record LabelRow : Type 0 where
  pub catalog_name : String
  pub key : String
  pub value : String

pub record GraphRow : Type 0 where
  pub id : ℕ
  pub catalog_name : String
  pub name : String
  pub path : String
  pub parent_id : Option ℕ
  pub deprecation_message : Option String

pub record BundleRow : Type 0 where
  pub id : ℕ
  pub catalog_name : String
  pub bundle_id : String
  pub package_name : String
  pub version : String
  pub release : String
  pub uri : String
  pub deprecation_message : Option String

pub record GraphBundle : Type 0 where
  pub graph_id : ℕ
  pub bundle_id : ℕ

pub record Successor : Type 0 where
  pub graph_id : ℕ
  pub from_bundle_id : ℕ
  pub to_bundle_id : ℕ

pub record PredecessorRange : Type 0 where
  pub graph_id : ℕ
  pub bundle_id : ℕ
  pub version_range : String

pub record BundleProperty : Type 0 where
  pub catalog_name : String
  pub bundle_id : String
  pub key : String
  pub value : String

pub record GraphProperty : Type 0 where
  pub graph_id : ℕ
  pub key : String
  pub value : String

-- `next_graph` and `next_bundle` are the ids that AUTOINCREMENT gives next.
pub record Database : Type 0 where
  pub metadata : List MetadataRow
  pub labels : List LabelRow
  pub graphs : List GraphRow
  pub bundles : List BundleRow
  pub graph_bundles : List GraphBundle
  pub successors : List Successor
  pub predecessor_ranges : List PredecessorRange
  pub bundle_properties : List BundleProperty
  pub graph_properties : List GraphProperty
  pub next_graph : ℕ
  pub next_bundle : ℕ

-- The errors of a writer's methods: those of the code, and the constraints of the tables.
pub data WriteError : Type 0 where
  empty_graph_path : WriteError
  invalid_segment : String → WriteError
  no_graph : List String → WriteError
  invalid_range : String → WriteError
  not_marshalled : WriteError
  unique_violated : WriteError
  foreign_key_violated : WriteError
  not_null_violated : WriteError
  check_violated : WriteError

module _ {ℓ} {A : Type ℓ} where
  -- `QueryRow`: the first row, none as `sql.ErrNoRows`
  unfoldable pub query_row : (A → Bool) → List A → Option A
  query_row p [] = none
  query_row p (x ∷ xs) = let rest = query_row p xs in if p x then some x else rest

abbrev pub is_parent : ℕ → Option ℕ → Bool
is_parent id none = false
is_parent id (some parent) = nat_eq id parent

-- a list of ids, as in `IN (…)`
abbrev pub has_id : List ℕ → ℕ → Bool
has_id ids id = any (λ x. nat_eq x id) ids

abbrev pub has_catalog : Database → String → Bool
has_catalog db name = any (λ (m : MetadataRow). m.name == name) db.metadata

-- The row of the key (catalog_name, path), and of the key (catalog_name, bundle_id).
abbrev pub is_graph : String → String → GraphRow → Bool
is_graph catalog path g = g.catalog_name == catalog && g.path == path

abbrev pub is_bundle : String → String → BundleRow → Bool
is_bundle catalog id b = b.catalog_name == catalog && b.bundle_id == id

-- The ids of the rows whose parent is in the list.
unfoldable pub children : List GraphRow → List ℕ → List ℕ
children [] ids = []
children (g ∷ gs) ids =
    let rest = children gs ids in
    if any (λ id. is_parent id g.parent_id) ids then g.id ∷ rest else rest

-- `WITH RECURSIVE descendants`, round by round. The query ends with the first round that finds
-- nothing; the rounds counted here are as many as ids were given, which is enough on a forest.
unfoldable pub descend : ℕ → List GraphRow → List ℕ → List ℕ
unfolding children
descend zero gs ids = []
descend (suc n) gs ids = let kids = children gs ids in kids ++ descend n gs kids

unfoldable pub descendants : Database → ℕ → List ℕ
unfolding descend
descendants db id = descend db.next_graph db.graphs (id ∷ [])
