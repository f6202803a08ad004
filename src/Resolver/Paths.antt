-- ===== src/Resolver/Paths.antt =====
-- Walking a path of graph names, against the relation that it computes.
use library_olm.Prelude.{String, ◌≡◌, refl, ◌↔◌, Option, none, some, List, [], ◌∷◌, Result, ok, err}
use mathlib.Core.Path.{subst}
use library_olm.Bundle.{SemVer}
use library_olm.Catalog.{Catalogs}
use library_olm.Resolver.Walk.{child, step_into, or_stop, walk_path}

module _ (v : SemVer) (c : Catalogs v) where
  open c use {Graph, Error, composite}

  -- The graph that a path of names leads to: each name is a child of a composite graph.
  pub data Descends : Graph → List String → Graph → Type 0 where
    here : {g : Graph} → Descends g [] g
    down :
        {g h k : Graph} {name : String} {path : List String}
        {get_graph : String → Result Error Graph}
        → composite g ≡ some get_graph
        → get_graph name ≡ ok h
        → Descends h path k
        → Descends g (name ∷ path) k

  found_child : (r : Result Error Graph) (h : Graph) → child v c r ≡ some h → r ≡ ok h
  found_child (ok k) h e = cc
  found_child (err x) h e = cc

  step_into_sound :
      (o : Option (String → Result Error Graph)) (h : Graph) (name : String)
      → step_into v c o name ≡ some h
      → (get_graph : String → Result Error Graph) × (o ≡ some get_graph) × (get_graph name ≡ ok h)
  unfolding step_into
  step_into_sound none h name e = cc
  step_into_sound (some get_graph) h name e = (get_graph, refl, found_child (get_graph name) h e)

  or_stop-some :
      (o : Option Graph) (k : Graph → Option Graph) (g : Graph)
      → or_stop v c o k ≡ some g
      → (h : Graph) × (o ≡ some h) × (k h ≡ some g)
  or_stop-some none k g e = cc
  or_stop-some (some h) k g e = (h, refl, e)

  walk_path_sound :
      (g k : Graph) (path : List String) → walk_path v c g path ≡ some k → Descends g path k
  unfolding walk_path
  walk_path_sound g k [] e = let same : g ≡ k = cc in subst (λ x. Descends g [] x) same here
  walk_path_sound g k (name ∷ path) e =
      let (h, stepped, rest) = or_stop-some (step_into v c (composite g) name) _ k e in
      let (get_graph, is_composite, found) = step_into_sound (composite g) h name stepped in
      down is_composite found (walk_path_sound h k path rest)

  walk_path_complete :
      {g k : Graph} {path : List String} → Descends g path k → walk_path v c g path ≡ some k
  unfolding walk_path step_into
  walk_path_complete here = refl
  walk_path_complete (down is_composite found d) = rw (is_composite, found) (walk_path_complete d)

  -- `walkPath` finds a graph exactly where the path leads to it: at every name the graph reached so
  -- far is composite and has a child of that name.
  pub walk_path_iff :
      (g k : Graph) (path : List String) → (walk_path v c g path ≡ some k) ↔ Descends g path k
  walk_path_iff g k path = (walk_path_sound g k path, walk_path_complete)
