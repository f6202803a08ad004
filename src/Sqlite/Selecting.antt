-- ===== src/Sqlite/Selecting.antt =====
-- The catalogs of a store that was selected from a selected store (catalog/v1/sqlite/sqlite.go).
use library_olm.Prelude.{
  Bool, true, false, ◌&&◌, List, [], ◌∷◌, keep, keep_both, ◌≡◌, refl, sym, ap, ◌∙◌,
}
use library_olm.Sqlite.Tables.{Database}
use library_olm.Sqlite.Store.{StoredCatalog, list_catalogs}
use library_olm.Sqlite.Select.{Selectors, IsSelectors, and_selector, selected_list}

keep-cong :
    {A : Type 0} (f g : A → Bool) → ((x : A) → f x ≡ g x) → (xs : List A) → keep f xs ≡ keep g xs
unfolding keep
keep-cong f g h [] = refl
keep-cong f g h (x ∷ xs) = rw (h x, keep-cong f g h xs) refl

keep-none : {A : Type 0} (f : A → Bool) → ((x : A) → f x ≡ false) → (xs : List A) → keep f xs ≡ []
unfolding keep
keep-none f h [] = refl
keep-none f h (x ∷ xs) = rw (h x) (keep-none f h xs)

module _ (s : Selectors) (h : IsSelectors s) (a b : s.Selector) (db : Database) where
  matches-and_selector :
      (s.requirements b).1 ≡ true
      → (cat : StoredCatalog)
      → s.matches (and_selector s a b) cat.labels
        ≡ (s.matches a cat.labels && s.matches b cat.labels)
  unfolding and_selector
  matches-and_selector sel cat =
      h.added a (s.requirements b).0 cat.labels
      ∙ ap (λ x. s.matches a cat.labels && x) (sym (h.selectable b cat.labels sel))

  matches-and_selector_nothing :
      (s.requirements b).1 ≡ false
      → (cat : StoredCatalog) → s.matches (and_selector s a b) cat.labels ≡ s.matches a cat.labels
  unfolding and_selector
  matches-and_selector_nothing non cat =
      h.added a (s.requirements b).0 cat.labels
      ∙ rw (h.nothing_required b non) (and_true (s.matches a cat.labels))
    where
      and_true : (x : Bool) → (x && true) ≡ x
      and_true true = refl
      and_true false = refl

-- A store selected by `b` from a store selected by `a` lists those of the first that `b` matches, if
-- `b` is selectable; if it is not, then `b` matches non catalog but the store lists all of the first.
pub selected_list-and_selector :
    (s : Selectors)
    → IsSelectors s
    → (a b : s.Selector) (db : Database)
    → ((s.requirements b).1 ≡ true
        → selected_list s (and_selector s a b) db
          ≡ keep (λ (cat : StoredCatalog). s.matches b cat.labels) (selected_list s a db))
      × ((s.requirements b).1 ≡ false
          → (selected_list s b db ≡ [])
            × (selected_list s (and_selector s a b) db ≡ selected_list s a db))
unfolding selected_list
selected_list-and_selector s h a b db = (
  λ sel.
      keep-cong _ _ (matches-and_selector s h a b db sel) (list_catalogs db)
      ∙ keep_both _ _ (list_catalogs db),
  λ non. (
    keep-none _ (λ (cat : StoredCatalog). h.nothing_matches b cat.labels non) (list_catalogs db),
    keep-cong _ _ (matches-and_selector_nothing s h a b db non) (list_catalogs db),
  ),
)
