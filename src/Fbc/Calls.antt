-- ===== src/Fbc/Calls.antt =====
-- The calls that the handler of packages (catalog/v1/fbc/internal/handler_olm_package.go) makes on a
-- writer, recorded by a writer of which every call succeeds.
use library_olm.Prelude.{
  String, Bool, true, false, ◌||◌, ◌&&◌, not, none, some, List, [], ◌∷◌, ◌++◌, any, Result, ok,
  if◌then◌else◌, ◌≡◌, refl, sym, arith,
}
use library_olm.Catalog.{Writer}
use library_olm.Fbc.Handler.{Written, ◌>>>◌, write_each}

-- A method of `Writer` with its arguments.
pub data Call (Value : Type 0) : Type 0 where
  bundle_inserted : String → String → String → String → String → Call Value
  graph_created : List String → Call Value
  bundle_added : List String → String → Call Value
  edge_added : List String → String → String → Call Value
  range_added : List String → String → String → Call Value
  bundle_property_set : String → String → Value → Call Value
  graph_property_set : List String → String → Value → Call Value
  graph_deprecated : List String → String → Call Value
  bundle_deprecated : String → String → Call Value

module _ (Value WriteFailure : Type 0) where
  abbrev record_call : Call Value → List (Call Value) → Result WriteFailure (List (Call Value))
  record_call call calls = ok (calls ++ (call ∷ []))

  abbrev pub recorder : Writer Value WriteFailure
  recorder = record {
    Content = List (Call Value);
    insert_bundle =
        λ id pkg version release uri. record_call (bundle_inserted id pkg version release uri);
    create_graph = λ path. record_call (graph_created path);
    add_bundle_to_graph = λ path id. record_call (bundle_added path id);
    add_edge = λ path from to. record_call (edge_added path from to);
    add_predecessor_range = λ path id range. record_call (range_added path id range);
    set_bundle_property = λ id key value. record_call (bundle_property_set id key value);
    set_graph_property = λ path key value. record_call (graph_property_set path key value);
    set_graph_deprecation = λ path message. record_call (graph_deprecated path message);
    set_bundle_deprecation = λ id message. record_call (bundle_deprecated id message);
  }

-- A chain of writes that succeeds, and makes a call that passes the test `q` exactly if `b`.
pub record Makes {Value E : Type 0} (q : Call Value → Bool) (b : Bool)
    (f : List (Call Value) → Written (List (Call Value)) E) : Type 0 where
  pub succeeds : (calls : List (Call Value)) → (f calls).1 ≡ none
  pub made : (calls : List (Call Value)) → any q (f calls).0 ≡ (any q calls || b)

module _ {Value : Type 0} (q : Call Value → Bool) where
  pub any-snoc :
      (calls : List (Call Value)) (call : Call Value)
      → any q (calls ++ (call ∷ [])) ≡ (any q calls || q call)
  any-snoc [] call = ground arith
  any-snoc (c ∷ calls) call = ground (arith, any-snoc calls call)

module _ {Value E : Type 0} (q : Call Value → Bool) where
  pub >>>-Makes :
      {a b : Bool} {f g : List (Call Value) → Written (List (Call Value)) E}
      → Makes q a f
      → Makes q b g
      → Makes q (a || b) (λ calls. f calls >>> g)
  >>>-Makes {a} {b} {f} {g} k l = record {
    succeeds = λ calls. (both calls (f calls) (k.succeeds calls) (k.made calls)).0;
    made = λ calls. (both calls (f calls) (k.succeeds calls) (k.made calls)).1;
  }
    where
      both :
          (calls : List (Call Value)) (m : Written (List (Call Value)) E)
          → m.1 ≡ none
          → any q m.0 ≡ (any q calls || a)
          → ((m >>> g).1 ≡ none) × (any q (m >>> g).0 ≡ (any q calls || (a || b)))
      both calls (c, some e) h k = let absent : none ≡ some e = sym h in absurd (cc)
      both calls (c, none) h k = (l.succeeds c, ground (arith, l.made c))

  pub nothing-Makes : Makes {Value = Value} {E = E} q false (λ calls. (calls, none))
  nothing-Makes = record { succeeds = λ calls. refl; made = λ calls. ground arith }

  pub if-Makes :
      {a : Bool} {f : List (Call Value) → Written (List (Call Value)) E} (b : Bool)
      → Makes q a f
      → Makes q (not b && a) (λ calls. if b then (calls, none) else f calls)
  if-Makes true k = nothing-Makes
  if-Makes false k = k

  pub write_each-Makes :
      {A : Type 0} {f : A → List (Call Value) → Written (List (Call Value)) E} {p : A → Bool}
      → ((x : A) → Makes q (p x) (f x))
      → (xs : List A) → Makes q (any p xs) (write_each f xs)
  unfolding write_each
  write_each-Makes k [] = nothing-Makes
  write_each-Makes k (x ∷ xs) = >>>-Makes (k x) (write_each-Makes k xs)
