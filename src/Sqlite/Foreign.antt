-- ===== src/Sqlite/Foreign.antt =====
-- What the store keeps of a catalog while another one is written (catalog/v1/sqlite/sqlite.go and
-- writer.go): the rows that name the catalog.
use library_olm.Prelude.{
  ℕ, String, Bool, true, false, not, ◌&&◌, Option, none, some, List, [], ◌∷◌, ◌++◌, any, keep,
  keep-keep, keep-map, Result, Yields, ok-Yields, err-Yields, >>=-Yields, if-Yields, if◌then◌else◌,
  ◌==◌, ◌≡◌, refl, ap, ◌∙◌, Bool-cases, inl, inr, arith, eq_iff,
}
use library_olm.Bundle.{SemVer}
use library_olm.Catalog.{Keeps}
use library_olm.Sqlite.Tables.{
  Parsers, Database, MetadataRow, LabelRow, BundleRow, BundleProperty, WriteError, invalid_range,
  not_marshalled, is_graph, is_bundle, has_catalog,
}
use library_olm.Sqlite.Writer.{
  content_writer, resolve_graph_id, insert_bundle, create_graph, add_bundle_to_graph, add_edge,
  add_predecessor_range, set_bundle_property, set_graph_property, set_graph_deprecation,
  set_bundle_deprecation, insert_graph_bundle, insert_successor, insert_range,
}
use library_olm.Sqlite.Keys.{front_segments, graph_path, insert_graph, or_error, same_edge}

-- The rows that name a catalog.
abbrev pub NamedRows : Type 0
NamedRows = (List MetadataRow × List LabelRow) × (List BundleRow × List BundleProperty)

unfoldable pub named_rows : String → Database → NamedRows
unfolding keep
named_rows other db = (
  (
    keep (λ (m : MetadataRow). m.name == other) db.metadata,
    keep (λ (l : LabelRow). l.catalog_name == other) db.labels,
  ),
  (
    keep (λ (b : BundleRow). b.catalog_name == other) db.bundles,
    keep (λ (r : BundleProperty). r.catalog_name == other) db.bundle_properties,
  ),
)

-- A write that may fail and, where it does not, leaves the rows of `other`.
module _ {E : Type 0} (other : String) (c : Database) where
  abbrev pub Leaves : Result E Database → Type 0
  Leaves r = Yields (λ c'. named_rows other c' ≡ named_rows other c) r

-- The rows with a new one, which is of another catalog, put behind them.
module _ {A : Type 0} (p : A → Bool) where
  pub keep-append_other : (xs : List A) (x : A) → p x ≡ false → keep p (xs ++ (x ∷ [])) ≡ keep p xs
  unfolding keep
  keep-append_other [] x h = rw h refl
  keep-append_other (y ∷ ys) x h = elim (Bool-cases (p y)) [
    | inl e ↦ rw (e, keep-append_other ys x h) refl
    | inr e ↦ rw (e) (keep-append_other ys x h)
  ]

module _ (name other : String) (different : name == other ≡ false) (c : Database) where
  -- The rows with other bundles, and with other properties of bundles.
  bundles-leave :
      (bs : List BundleRow)
      → keep (λ (b : BundleRow). b.catalog_name == other) bs
        ≡ keep (λ (b : BundleRow). b.catalog_name == other) c.bundles
      → (
        (named_rows other c).0,
        (keep (λ (b : BundleRow). b.catalog_name == other) bs, (named_rows other c).1.1),
      )
        ≡ named_rows other c
  unfolding named_rows
  bundles-leave bs h =
      ap (λ (bs : List BundleRow). ((named_rows other c).0, (bs, (named_rows other c).1.1))) h

  insert_bundle-Leaves :
      (id pkg version release uri : String)
      → Leaves other c (insert_bundle name id pkg version release uri c)
  unfolding insert_bundle named_rows
  insert_bundle-Leaves id pkg version release uri =
      if-Yields (any (is_bundle name id) c.bundles) (ok-Yields c refl) (
        if-Yields (not (has_catalog c name)) (err-Yields _) (
          ok-Yields _ (
            bundles-leave _ (
              keep-append_other (λ (b : BundleRow). b.catalog_name == other) c.bundles _
                different))))

  insert_graph-Leaves :
      (graph path : String) (parent : Option ℕ)
      → Leaves other c (insert_graph name graph path parent c)
  unfolding insert_graph named_rows
  insert_graph-Leaves graph path parent =
      if-Yields (any (is_graph name path) c.graphs) (err-Yields _)
        (if-Yields (not (has_catalog c name)) (err-Yields _) (ok-Yields _ refl))

  create_graph-Leaves : (path : List String) → Leaves other c (create_graph name path c)
  unfolding create_graph
  create_graph-Leaves [] = err-Yields _
  create_graph-Leaves (x ∷ []) =
      >>=-Yields (graph_path (x ∷ [])) (λ p _. insert_graph-Leaves x p none)
  create_graph-Leaves (x ∷ y ∷ ys) = >>=-Yields (graph_path (x ∷ y ∷ ys)) (λ p _.
      >>=-Yields (resolve_graph_id name (front_segments x (y ∷ ys)) c)
        (λ parent _. insert_graph-Leaves _ p (some parent)))

  insert_graph_bundle-Leaves :
      (graph : ℕ) (bundle : Option ℕ) → Leaves other c (insert_graph_bundle name graph bundle c)
  unfolding named_rows
  insert_graph_bundle-Leaves graph none = ok-Yields c refl
  insert_graph_bundle-Leaves graph (some bundle) = if-Yields _ (err-Yields _) (ok-Yields _ refl)

  add_bundle_to_graph-Leaves :
      (path : List String) (id : String) → Leaves other c (add_bundle_to_graph name path id c)
  unfolding add_bundle_to_graph
  add_bundle_to_graph-Leaves path id =
      >>=-Yields (resolve_graph_id name path c) (λ graph _. insert_graph_bundle-Leaves graph _)

  insert_successor-leaves :
      (graph : ℕ) (from to : Option ℕ)
      → named_rows other (insert_successor name graph from to c) ≡ named_rows other c
  unfolding named_rows
  insert_successor-leaves graph none to = refl
  insert_successor-leaves graph (some from) none = refl
  insert_successor-leaves graph (some from) (some to) =
      elim (Bool-cases (
        any (same_edge (record { graph_id = graph; from_bundle_id = from; to_bundle_id = to }))
          c.successors)) [ inl e ↦ rw e refl | inr e ↦ rw e refl ]

  add_edge-Leaves :
      (path : List String) (from to : String) → Leaves other c (add_edge name path from to c)
  unfolding add_edge
  add_edge-Leaves path from to =
      >>=-Yields (resolve_graph_id name path c)
        (λ graph _. ok-Yields _ (insert_successor-leaves graph _ _))

  insert_range-Leaves :
      (graph : ℕ) (bundle : Option ℕ) (range : String)
      → Leaves other c (insert_range name graph bundle range c)
  unfolding named_rows
  insert_range-Leaves graph none range = err-Yields _
  insert_range-Leaves graph (some bundle) range = if-Yields _ (err-Yields _) (ok-Yields _ refl)

  set_graph_deprecation-Leaves :
      (path : List String) (message : String)
      → Leaves other c (set_graph_deprecation name path message c)
  unfolding set_graph_deprecation named_rows
  set_graph_deprecation-Leaves path message =
      >>=-Yields (graph_path path) (λ p _. if-Yields _ (err-Yields _) (ok-Yields _ refl))

  set_bundle_deprecation-Leaves :
      (id message : String) → Leaves other c (set_bundle_deprecation name id message c)
  unfolding set_bundle_deprecation named_rows
  set_bundle_deprecation-Leaves id message = if-Yields _ (err-Yields _) (
      ok-Yields _ (
        bundles-leave _ (
          keep-map (λ (b : BundleRow). b.catalog_name == other)
            (λ (b : BundleRow).
              if is_bundle name id b then record b { deprecation_message = some message } else b)
            catalog_left not_updated c.bundles)))
    where
      catalog_left :
          (b : BundleRow)
          → (if is_bundle name id b
                then record b { deprecation_message = some message }
                else b).catalog_name
              == other
            ≡ b.catalog_name == other
      catalog_left b = elim (Bool-cases (is_bundle name id b)) [
        | inl e ↦ rw e refl
        | inr e ↦ rw e refl
      ]

      not_updated :
          (b : BundleRow)
          → b.catalog_name == other ≡ true
          → (if is_bundle name id b then record b { deprecation_message = some message } else b) ≡ b
      not_updated b h = elim (Bool-cases (b.catalog_name == name)) [
        | inl e ↦ absurd (
            ground
              (arith, eq_iff b.catalog_name name, eq_iff b.catalog_name other, eq_iff name other))
        | inr e ↦ rw e refl
      ]

  module _ (v : SemVer) (p : Parsers v) where
    add_predecessor_range-Leaves :
        (path : List String) (id range : String)
        → Leaves other c (add_predecessor_range name v p path id range c)
    unfolding add_predecessor_range
    add_predecessor_range-Leaves path id range =
        >>=-Yields (or_error (invalid_range range) (p.parse_range range)) (λ _ _.
          >>=-Yields (resolve_graph_id name path c) (λ graph _. insert_range-Leaves graph _ range))

    set_bundle_property-Leaves :
        (id key : String) (value : p.Value)
        → Leaves other c (set_bundle_property name v p id key value c)
    unfolding set_bundle_property named_rows
    set_bundle_property-Leaves id key value =
        >>=-Yields (or_error not_marshalled (p.marshal value)) (λ json _.
          if-Yields (json == "") (err-Yields _) (
            if-Yields (not (any (is_bundle name id) c.bundles)) (err-Yields _) (
              ok-Yields _ (
                ap
                  (λ (rs : List BundleProperty).
                    ((named_rows other c).0, ((named_rows other c).1.0, rs)))
                  (keep-append_other (λ (r : BundleProperty). r.catalog_name == other) _ _ different
                    ∙ keep-keep (λ (r : BundleProperty). r.catalog_name == other) _ kept
                        c.bundle_properties)))))
      where
        kept :
            (r : BundleProperty)
            → r.catalog_name == other ≡ true
            → not (r.catalog_name == name && (r.bundle_id == id && r.key == key)) ≡ true
        kept r h =
            ground
              (arith, eq_iff r.catalog_name name, eq_iff r.catalog_name other, eq_iff name other)

    set_graph_property-Leaves :
        (path : List String) (key : String) (value : p.Value)
        → Leaves other c (set_graph_property name v p path key value c)
    unfolding set_graph_property named_rows
    set_graph_property-Leaves path key value =
        >>=-Yields (or_error not_marshalled (p.marshal value)) (λ json _.
          >>=-Yields (resolve_graph_id name path c)
            (λ graph _. if-Yields (json == "") (err-Yields _) (ok-Yields _ refl)))

-- No method of the writer of one catalog touches the rows of another.
pub content_writer-Keeps :
    (name other : String)
    → name == other ≡ false
    → (v : SemVer) (p : Parsers v) (before : NamedRows)
    → Keeps p.Value WriteError
        (content_writer name v p)
        (unfold content_writer in (λ (c : Database). named_rows other c ≡ before))
unfolding content_writer
content_writer-Keeps name other different v p before = record {
  insert_bundle = λ id pkg version release uri c c' e h.
      (insert_bundle-Leaves name other different c id pkg version release uri).at c' e ∙ h;
  create_graph = λ path c c' e h. (create_graph-Leaves name other different c path).at c' e ∙ h;
  add_bundle_to_graph =
      λ path id c c' e h. (add_bundle_to_graph-Leaves name other different c path id).at c' e ∙ h;
  add_edge =
      λ path from to c c' e h. (add_edge-Leaves name other different c path from to).at c' e ∙ h;
  add_predecessor_range = λ path id range c c' e h.
      (add_predecessor_range-Leaves name other different c v p path id range).at c' e ∙ h;
  set_bundle_property = λ id key value c c' e h.
      (set_bundle_property-Leaves name other different c v p id key value).at c' e ∙ h;
  set_graph_property = λ path key value c c' e h.
      (set_graph_property-Leaves name other different c v p path key value).at c' e ∙ h;
  set_graph_deprecation = λ path message c c' e h.
      (set_graph_deprecation-Leaves name other different c path message).at c' e ∙ h;
  set_bundle_deprecation = λ id message c c' e h.
      (set_bundle_deprecation-Leaves name other different c id message).at c' e ∙ h;
}
