-- ===== src/Sqlite/SelectorTests.antt =====
-- The theorem on stores that are selected from selected stores (catalog/v1/sqlite/sqlite.go) at a
-- concrete implementation of selectors.
use library_olm.Prelude.{
  String, Bool, true, false, ◌&&◌, Option, none, some, List, [], ◌++◌, all, all-append, keep, get,
  Map, ◌==◌, ◌≡◌, refl,
}
use library_olm.Sqlite.Store.{StoredCatalog}
use library_olm.Sqlite.Select.{Selectors, IsSelectors, and_selector, selected_list}
use library_olm.Sqlite.Selecting.{selected_list-and_selector}
use library_olm.Sqlite.Tests.{sample_database}

-- A selector is a list of keys with their values, or `labels.Nothing()`.
abbrev label_is : String × String → Map String → Bool
label_is r l = value_is (get l r.0)
  where
    value_is : Option String → Bool
    value_is none = false
    value_is (some value) = value == r.1

abbrev selector_matches : Option (List (String × String)) → Map String → Bool
selector_matches none l = false
selector_matches (some rs) l = all (λ r. label_is r l) rs

abbrev selector_requirements : Option (List (String × String)) → List (String × String) × Bool
selector_requirements none = ([], false)
selector_requirements (some rs) = (rs, true)

abbrev add_requirements :
    Option (List (String × String)) → List (String × String) → Option (List (String × String))
add_requirements none more = none
add_requirements (some rs) more = some (rs ++ more)

abbrev selectors : Selectors
selectors = record {
  Selector = Option (List (String × String));
  Requirement = String × String;
  matches = selector_matches;
  requirements = selector_requirements;
  add = add_requirements;
  holds = label_is;
}

selectors-IsSelectors : IsSelectors selectors
selectors-IsSelectors = record {
  added = added;
  selectable = selectable;
  nothing_matches = nothing_matches;
  nothing_required = nothing_required;
}
  where
    added :
        (a : Option (List (String × String))) (rs : List (String × String)) (l : Map String)
        → selector_matches (add_requirements a rs) l
          ≡ (selector_matches a l && all (λ r. label_is r l) rs)
    added none rs l = refl
    added (some qs) rs l = all-append (λ r. label_is r l) qs rs

    selectable :
        (a : Option (List (String × String))) (l : Map String)
        → (selector_requirements a).1 ≡ true
        → selector_matches a l ≡ all (λ r. label_is r l) (selector_requirements a).0
    selectable none l h = cc
    selectable (some rs) l h = refl

    nothing_matches :
        (a : Option (List (String × String))) (l : Map String)
        → (selector_requirements a).1 ≡ false
        → selector_matches a l ≡ false
    nothing_matches none l h = refl
    nothing_matches (some rs) l h = cc

    nothing_required :
        (a : Option (List (String × String)))
        → (selector_requirements a).1 ≡ false
        → (selector_requirements a).0 ≡ []
    nothing_required none h = refl
    nothing_required (some rs) h = cc

selected_list-and_selector_example :
    ((selectors.requirements none).1 ≡ true
      → selected_list selectors (and_selector selectors (some []) none) sample_database
        ≡ keep
            (λ (cat : StoredCatalog). selectors.matches none cat.labels)
            (selected_list selectors (some []) sample_database))
    × ((selectors.requirements none).1 ≡ false
        → (selected_list selectors none sample_database ≡ [])
          × (selected_list selectors (and_selector selectors (some []) none) sample_database
              ≡ selected_list selectors (some []) sample_database))
selected_list-and_selector_example =
    selected_list-and_selector selectors selectors-IsSelectors (some []) none sample_database
