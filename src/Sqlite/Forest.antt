-- ===== src/Sqlite/Forest.antt =====
-- The writer of catalog/v1/sqlite keeps the graphs a forest: a graph is made below one that is there.
use library_olm.Prelude.{
  ℕ, ◌<◌, String, Bool, true, false, not, Option, none, some, List, [], ◌∷◌, map, any, All,
  All-append, All-map, nat_eq, ok, Yields, ok-Yields, err-Yields, >>=-Yields, >>=-eq-ok, if-Yields,
  ◌==◌, Bool-cases, inl, inr, ◌≡◌, arith, if◌then◌else◌,
}
use mathlib.Core.Path.{subst}
use library_olm.Bundle.{SemVer}
use library_olm.Catalog.{Keeps}
use library_olm.Sqlite.Tables.{
  Parsers, GraphRow, Database, WriteError, invalid_range, not_marshalled, is_graph, is_bundle,
  is_parent, has_catalog, query_row,
}
use library_olm.Sqlite.Writer.{
  resolve_graph_id, insert_bundle, create_graph, insert_graph_bundle, add_bundle_to_graph,
  insert_successor, add_edge, insert_range, add_predecessor_range, set_bundle_property,
  set_graph_property, set_graph_deprecation, set_bundle_deprecation, content_writer,
}
use library_olm.Sqlite.Keys.{
  graph_path, or_error, graph_row_id, new_graph, front_segments, insert_graph, same_edge,
}
use library_olm.Sqlite.Descent.{IsForest}

-- A row that a query finds is one of the table's.
module _ (p : GraphRow → Bool) (next : ℕ) where
  query_row-small :
      (gs : List GraphRow)
      → All
          (λ (g : GraphRow). (g.id < next) × ((i : ℕ) → is_parent i g.parent_id ≡ true → i < g.id))
          gs
      → (id : ℕ) → graph_row_id (query_row p gs) ≡ some id
      → id < next
  unfolding query_row
  query_row-small [] h id e = cc
  query_row-small (g ∷ gs) h id e = at_row (p g) e (query_row-small gs h.1 id)
    where
      at_row :
          (b : Bool)
          → graph_row_id (if b then some g else query_row p gs) ≡ some id
          → (graph_row_id (query_row p gs) ≡ some id → id < next)
          → id < next
      at_row true e k = subst (λ n. n < next) (inside e) h.0.0
        where
          inside : graph_row_id (some g) ≡ some id → g.id ≡ id
          inside e = cc
      at_row false e k = k e

or_error-eq-ok : (e : WriteError) (o : Option ℕ) (id : ℕ) → or_error e o ≡ ok id → o ≡ some id
or_error-eq-ok e none id h = cc
or_error-eq-ok e (some i) id h = cc

module _ (name : String) (db : Database) (forest : IsForest db) where
  resolve_graph_id-small :
      (path : List String) (id : ℕ) → resolve_graph_id name path db ≡ ok id → id < db.next_graph
  unfolding resolve_graph_id
  resolve_graph_id-small [] id h = cc
  resolve_graph_id-small (x ∷ xs) id h =
      let (key, e, rest) = >>=-eq-ok (graph_path (x ∷ xs)) _ h in
      query_row-small (is_graph name key) db.next_graph db.graphs forest id
        (or_error-eq-ok _ _ id rest)

  insert_graph-Yields :
      (graph path : String) (parent : Option ℕ)
      → ((i : ℕ) → is_parent i parent ≡ true → i < db.next_graph)
      → Yields IsForest (insert_graph name graph path parent db)
  unfolding insert_graph
  insert_graph-Yields graph path parent small =
      if-Yields (any (is_graph name path) db.graphs) (err-Yields _) (
        if-Yields (not (has_catalog db name)) (err-Yields _) (
          ok-Yields _ (
            All-append _ db.graphs (new_graph db.next_graph name graph path parent ∷ [])
              (All-map (λ g h. (omega (arith, h.0), h.1)) db.graphs forest)
              ((omega arith, small), tt))))

  create_graph-Yields : (path : List String) → Yields IsForest (create_graph name path db)
  unfolding create_graph
  create_graph-Yields [] = err-Yields _
  create_graph-Yields (x ∷ []) =
      >>=-Yields (graph_path (x ∷ []))
        (λ p _. insert_graph-Yields x p none (λ i h. absurd (ground arith)))
  create_graph-Yields (x ∷ y ∷ ys) = >>=-Yields (graph_path (x ∷ y ∷ ys)) (λ p _.
      >>=-Yields (resolve_graph_id name (front_segments x (y ∷ ys)) db) (λ parent e.
        insert_graph-Yields _ p (some parent) (λ i h.
          below_next i parent h (resolve_graph_id-small (front_segments x (y ∷ ys)) parent e))))
    where
      below_next :
          (i parent : ℕ) → nat_eq i parent ≡ true → parent < db.next_graph → i < db.next_graph
      below_next i parent h l = ground arith

  -- The other methods leave the ids and the parents of the graphs.
  insert_bundle-Yields :
      (id pkg version release uri : String)
      → Yields IsForest (insert_bundle name id pkg version release uri db)
  unfolding insert_bundle
  insert_bundle-Yields id pkg version release uri =
      if-Yields (any (is_bundle name id) db.bundles) (ok-Yields db forest)
        (if-Yields (not (has_catalog db name)) (err-Yields _) (ok-Yields _ forest))

  insert_graph_bundle-Yields :
      (graph : ℕ) (bundle : Option ℕ) → Yields IsForest (insert_graph_bundle name graph bundle db)
  insert_graph_bundle-Yields graph none = ok-Yields db forest
  insert_graph_bundle-Yields graph (some bundle) = if-Yields _ (err-Yields _) (ok-Yields _ forest)

  add_bundle_to_graph-Yields :
      (path : List String) (id : String) → Yields IsForest (add_bundle_to_graph name path id db)
  unfolding add_bundle_to_graph
  add_bundle_to_graph-Yields path id =
      >>=-Yields (resolve_graph_id name path db) (λ graph _. insert_graph_bundle-Yields graph _)

  insert_successor-IsForest :
      (graph : ℕ) (from to : Option ℕ) → IsForest (insert_successor name graph from to db)
  insert_successor-IsForest graph none to = forest
  insert_successor-IsForest graph (some from) none = forest
  insert_successor-IsForest graph (some from) (some to) =
      elim (Bool-cases (
        any (same_edge (record { graph_id = graph; from_bundle_id = from; to_bundle_id = to }))
          db.successors)) [ inl e ↦ rw e forest | inr e ↦ rw e forest ]

  add_edge-Yields :
      (path : List String) (from to : String) → Yields IsForest (add_edge name path from to db)
  unfolding add_edge
  add_edge-Yields path from to =
      >>=-Yields (resolve_graph_id name path db)
        (λ graph _. ok-Yields _ (insert_successor-IsForest graph _ _))

  insert_range-Yields :
      (graph : ℕ) (bundle : Option ℕ) (range : String)
      → Yields IsForest (insert_range name graph bundle range db)
  insert_range-Yields graph none range = err-Yields _
  insert_range-Yields graph (some bundle) range = if-Yields _ (err-Yields _) (ok-Yields _ forest)

  set_graph_deprecation-Yields :
      (path : List String) (message : String)
      → Yields IsForest (set_graph_deprecation name path message db)
  unfolding set_graph_deprecation
  set_graph_deprecation-Yields path message =
      >>=-Yields (graph_path path)
        (λ key _. if-Yields _ (err-Yields _) (ok-Yields _ (deprecated key db.graphs forest)))
    where
      deprecated :
          (key : String) (gs : List GraphRow)
          → All
              (λ (g : GraphRow).
                (g.id < db.next_graph) × ((i : ℕ) → is_parent i g.parent_id ≡ true → i < g.id))
              gs
          → All
              (λ (g : GraphRow).
                (g.id < db.next_graph) × ((i : ℕ) → is_parent i g.parent_id ≡ true → i < g.id))
              (map
                (λ (g : GraphRow).
                  if is_graph name key g
                  then record g { deprecation_message = some message }
                  else g)
                gs)
      deprecated key [] h = tt
      deprecated key (g ∷ gs) h = elim (Bool-cases (is_graph name key g)) [
        | inl e ↦ rw e (h.0, deprecated key gs h.1)
        | inr e ↦ rw e (h.0, deprecated key gs h.1)
      ]

  set_bundle_deprecation-Yields :
      (id message : String) → Yields IsForest (set_bundle_deprecation name id message db)
  unfolding set_bundle_deprecation
  set_bundle_deprecation-Yields id message = if-Yields _ (err-Yields _) (ok-Yields _ forest)

  module _ (v : SemVer) (p : Parsers v) where
    add_predecessor_range-Yields :
        (path : List String) (id range : String)
        → Yields IsForest (add_predecessor_range name v p path id range db)
    unfolding add_predecessor_range
    add_predecessor_range-Yields path id range =
        >>=-Yields (or_error (invalid_range range) (p.parse_range range)) (λ _ _.
          >>=-Yields (resolve_graph_id name path db) (λ graph _. insert_range-Yields graph _ range))

    set_bundle_property-Yields :
        (id key : String) (value : p.Value)
        → Yields IsForest (set_bundle_property name v p id key value db)
    unfolding set_bundle_property
    set_bundle_property-Yields id key value =
        >>=-Yields (or_error not_marshalled (p.marshal value)) (λ json _.
          if-Yields (json == "") (err-Yields _) (if-Yields _ (err-Yields _) (ok-Yields _ forest)))

    set_graph_property-Yields :
        (path : List String) (key : String) (value : p.Value)
        → Yields IsForest (set_graph_property name v p path key value db)
    unfolding set_graph_property
    set_graph_property-Yields path key value =
        >>=-Yields (or_error not_marshalled (p.marshal value)) (λ json _.
          >>=-Yields (resolve_graph_id name path db)
            (λ graph _. if-Yields (json == "") (err-Yields _) (ok-Yields _ forest)))

pub content_writer-IsForest :
    (name : String) (v : SemVer) (p : Parsers v)
    → Keeps p.Value WriteError (content_writer name v p) (unfold content_writer in IsForest)
unfolding content_writer
content_writer-IsForest name v p = record {
  insert_bundle = λ id pkg version release uri c c' e h.
      (insert_bundle-Yields name c h id pkg version release uri).at c' e;
  create_graph = λ path c c' e h. (create_graph-Yields name c h path).at c' e;
  add_bundle_to_graph = λ path id c c' e h. (add_bundle_to_graph-Yields name c h path id).at c' e;
  add_edge = λ path from to c c' e h. (add_edge-Yields name c h path from to).at c' e;
  add_predecessor_range =
      λ path id range c c' e h. (add_predecessor_range-Yields name c h v p path id range).at c' e;
  set_bundle_property =
      λ id key value c c' e h. (set_bundle_property-Yields name c h v p id key value).at c' e;
  set_graph_property =
      λ path key value c c' e h. (set_graph_property-Yields name c h v p path key value).at c' e;
  set_graph_deprecation =
      λ path message c c' e h. (set_graph_deprecation-Yields name c h path message).at c' e;
  set_bundle_deprecation =
      λ id message c c' e h. (set_bundle_deprecation-Yields name c h id message).at c' e;
}
