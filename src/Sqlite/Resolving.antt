-- ===== src/Sqlite/Resolving.antt =====
-- Graphs that were created are found by their paths (`CreateGraph` and `resolveGraphID`,
-- catalog/v1/sqlite/writer.go).
use library_olm.Prelude.{
  ℕ, String, Bool, true, false, not, Option, none, some, List, [], ◌∷◌, ◌++◌, any, Result, ok, err,
  >>=-eq-ok, guarded-eq-ok, Result-cases, is_err, is_ok, split, ◌==◌, Bool-cases, inl, inr, eq_iff,
  eq_refl, ◌≡◌, ◌≢◌, refl, sym, ap, ◌∙◌, arith,
}
use library_olm.Sqlite.Tables.{
  Database, GraphRow, WriteError, no_graph, is_graph, has_catalog, query_row,
}
use library_olm.Sqlite.Writer.{resolve_graph_id, create_graph}
use library_olm.Sqlite.Keys.{
  graph_path, or_error, graph_row_id, new_graph, front_segments, insert_graph, slash,
}
use library_olm.Sqlite.Paths.{split-graph_path}

module _ {A : Type 0} (p : A → Bool) where
  query_row-append_found :
      (xs : List A) (x : A) → any p xs ≡ false → p x ≡ true → query_row p (xs ++ (x ∷ [])) ≡ some x
  unfolding query_row
  query_row-append_found [] x h e = rw e refl
  query_row-append_found (y ∷ ys) x h e =
      let h0 : p y ≡ false = ground arith in rw h0 (query_row-append_found ys x (ground arith) e)

  query_row-append_other :
      (xs : List A) (x : A) → p x ≡ false → query_row p (xs ++ (x ∷ [])) ≡ query_row p xs
  unfolding query_row
  query_row-append_other [] x e = rw e refl
  query_row-append_other (y ∷ ys) x e = elim (Bool-cases (p y)) [
    | inl h ↦ rw h refl
    | inr h ↦ rw h (query_row-append_other ys x e)
  ]

module _ (name : String) (db db' : Database) where
  -- The row that a graph is inserted as.
  abbrev IsInserted : String → Type 0
  IsInserted key =
      (graph : String) × (parent : Option ℕ) × (any (is_graph name key) db.graphs ≡ false)
      × (db'.graphs ≡ db.graphs ++ (new_graph db.next_graph name graph key parent ∷ []))

  insert_graph-IsInserted :
      (graph key : String) (parent : Option ℕ)
      → insert_graph name graph key parent db ≡ ok db'
      → IsInserted key
  unfolding insert_graph
  insert_graph-IsInserted graph key parent h =
      let (fresh, rest) = guarded-eq-ok (any (is_graph name key) db.graphs) _ _ h in
      let (known, e) = guarded-eq-ok (not (has_catalog db name)) _ _ rest in
      (graph, parent, fresh, ap_graphs _ _ refl e)
    where
      ap_graphs :
          (r : Result WriteError Database) (d : Database)
          → r ≡ ok d
          → r ≡ ok db'
          → db'.graphs ≡ d.graphs
      ap_graphs r d e h = cc

  create_graph-IsInserted :
      (x : String) (xs : List String)
      → create_graph name (x ∷ xs) db ≡ ok db'
      → (key : String) × (graph_path (x ∷ xs) ≡ ok key) × IsInserted key
  unfolding create_graph
  create_graph-IsInserted x [] h =
      let (key, e, rest) = >>=-eq-ok (graph_path (x ∷ [])) _ h in
      (key, e, insert_graph-IsInserted x key none rest)
  create_graph-IsInserted x (y ∷ ys) h =
      let (key, e, rest) = >>=-eq-ok (graph_path (x ∷ y ∷ ys)) _ h in
      let (parent, e', last) =
        >>=-eq-ok (resolve_graph_id name (front_segments x (y ∷ ys)) db) _ rest in
      (key, e, insert_graph-IsInserted _ key (some parent) last)

-- The rest of `resolveGraphID`, of the key.
abbrev by_key : String → List String → List GraphRow → String → Result WriteError ℕ
by_key name path gs key = or_error (no_graph path) (graph_row_id (query_row (is_graph name key) gs))

resolve_graph_id-by_key :
    (name x : String) (xs : List String) (key : String) (db : Database)
    → graph_path (x ∷ xs) ≡ ok key
    → resolve_graph_id name (x ∷ xs) db ≡ by_key name (x ∷ xs) db.graphs key
unfolding resolve_graph_id
resolve_graph_id-by_key name x xs key db e = rw e refl

resolve_graph_id-err :
    (name x : String) (xs : List String) (er : WriteError) (db : Database)
    → graph_path (x ∷ xs) ≡ err er
    → resolve_graph_id name (x ∷ xs) db ≡ err er
unfolding resolve_graph_id
resolve_graph_id-err name x xs er db e = rw e refl

is_graph-new :
    (name key : String) (id : ℕ) (graph : String) (parent : Option ℕ)
    → is_graph name key (new_graph id name graph key parent) ≡ true
is_graph-new name key id graph parent = rw (eq_refl name, eq_refl key) refl

-- A graph that was created is found by its path, with the id that was next, and every other path
-- leads where it led.
pub resolve_graph_id-create_graph :
    (name x : String) (xs : List String) (db db' : Database)
    → create_graph name (x ∷ xs) db ≡ ok db'
    → (resolve_graph_id name (x ∷ xs) db' ≡ ok db.next_graph)
      × ((other : List String)
          → other ≢ (x ∷ xs)
          → resolve_graph_id name other db' ≡ resolve_graph_id name other db)
resolve_graph_id-create_graph name x xs db db' h =
    let (key, e, (graph, parent, fresh, rows)) = create_graph-IsInserted name db db' x xs h in
    (found key e graph parent fresh rows, λ other differ. same other key e graph parent rows differ)
  where
    found :
        (key : String)
        → graph_path (x ∷ xs) ≡ ok key
        → (graph : String) (parent : Option ℕ) → any (is_graph name key) db.graphs ≡ false
        → db'.graphs ≡ db.graphs ++ (new_graph db.next_graph name graph key parent ∷ [])
        → resolve_graph_id name (x ∷ xs) db' ≡ ok db.next_graph
    found key e graph parent fresh rows =
        resolve_graph_id-by_key name x xs key db' e
        ∙ ap (λ gs. by_key name (x ∷ xs) gs key) rows
        ∙ ap (λ r. or_error (no_graph (x ∷ xs)) (graph_row_id r))
            (query_row-append_found (is_graph name key) db.graphs _ fresh
              (is_graph-new name key db.next_graph graph parent))

    same :
        (other : List String) (key : String)
        → graph_path (x ∷ xs) ≡ ok key
        → (graph : String) (parent : Option ℕ)
        → db'.graphs ≡ db.graphs ++ (new_graph db.next_graph name graph key parent ∷ [])
        → other ≢ (x ∷ xs)
        → resolve_graph_id name other db' ≡ resolve_graph_id name other db
    same [] key e graph parent rows differ = unfold resolve_graph_id in refl
    same (y ∷ ys) key e graph parent rows differ = elim (Result-cases (graph_path (y ∷ ys))) [
      | is_err er d ↦
          resolve_graph_id-err name y ys er db' d ∙ sym (resolve_graph_id-err name y ys er db d)
      | is_ok k d ↦
          resolve_graph_id-by_key name y ys k db' d
          ∙ ap (λ gs. by_key name (y ∷ ys) gs k) rows
          ∙ ap (λ r. or_error (no_graph (y ∷ ys)) (graph_row_id r))
              (query_row-append_other (is_graph name k) db.graphs _ (not_it k d))
          ∙ sym (resolve_graph_id-by_key name y ys k db d)
    ]
      where
        not_it :
            (k : String)
            → graph_path (y ∷ ys) ≡ ok k
            → is_graph name k (new_graph db.next_graph name graph key parent) ≡ false
        not_it k d = elim (Bool-cases (key == k)) [
          | inl h ↦ absurd (
              differ (
                sym (split-graph_path y ys k d)
                ∙ ap (λ z. split slash z) (sym ((eq_iff key k).0 h))
                ∙ split-graph_path x xs key e))
          | inr h ↦ rw (h, eq_refl name) refl
        ]
