-- ===== src/Sqlite/Select.antt =====
-- catalog/v1/sqlite/sqlite.go: `selectedStore`. Selectors are k8s.io/apimachinery's, a parameter.
use library_olm.Prelude.{
  String, Bool, true, false, ◌&&◌, List, [], all, keep, Map, Result, ok, err, ◌>>=◌, ◌≡◌,
  if◌then◌else◌,
}
use library_olm.Bundle.{SemVer}
use library_olm.Sqlite.Tables.{Parsers, Database}
use library_olm.Sqlite.Store.{
  StoreError, catalog_not_found, StoredCatalog, get_catalog, list_catalogs,
}

-- `labels.Selector`: `Matches`, `Requirements` with its second result, and `Add`.
pub record Selectors : Type 1 where
  pub Selector : Type 0
  pub Requirement : Type 0
  pub matches : Selector → Map String → Bool
  pub requirements : Selector → List Requirement × Bool
  pub add : Selector → List Requirement → Selector
  -- `Requirement.Matches`
  pub holds : Requirement → Map String → Bool

-- The selector that `Add` gives wants the requirements too; a selector that is selectable wants its
-- requirements, and one that is not matches nothing and has none.
pub record IsSelectors (s : Selectors) : Type 0 where
  pub added :
      (a : s.Selector) (rs : List s.Requirement) (l : Map String)
      → s.matches (s.add a rs) l ≡ (s.matches a l && all (λ r. s.holds r l) rs)
  pub selectable :
      (a : s.Selector) (l : Map String)
      → (s.requirements a).1 ≡ true
      → s.matches a l ≡ all (λ r. s.holds r l) (s.requirements a).0
  pub nothing_matches :
      (a : s.Selector) (l : Map String) → (s.requirements a).1 ≡ false → s.matches a l ≡ false
  pub nothing_required : (a : s.Selector) → (s.requirements a).1 ≡ false → (s.requirements a).0 ≡ []

module _ (s : Selectors) where
  -- `andSelector`, which leaves the second result of `Requirements` out
  unfoldable pub and_selector : s.Selector → s.Selector → s.Selector
  and_selector a b = s.add a (s.requirements b).0

  unfoldable pub selected_list : s.Selector → Database → List StoredCatalog
  unfolding list_catalogs
  selected_list selector db =
      keep (λ (cat : StoredCatalog). s.matches selector cat.labels) (list_catalogs db)

  module _ (v : SemVer) (p : Parsers v) (F : Type 0) where
    unfoldable pub selected_get :
        s.Selector → Database → String → Result (StoreError F) StoredCatalog
    unfolding get_catalog
    selected_get selector db name = get_catalog v p F db name >>= λ cat.
        if s.matches selector cat.labels then ok cat else err (catalog_not_found name)
