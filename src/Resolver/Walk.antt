-- ===== src/Resolver/Walk.antt =====
-- `selectGraphs` and `walkPath`
use library_olm.Prelude.{String, Option, none, some, List, [], ◌∷◌, Result, ok, err}
use library_olm.Bundle.{SemVer}
use library_olm.Catalog.{Catalogs}

module _ (v : SemVer) (c : Catalogs v) where
  open c use {Graph, Error, composite}

  abbrev pub child : Result Error Graph → Option Graph
  child (ok g) = some g
  child (err e) = none

  -- One round of the loop: no composite graph, or no graph of that name, ends the walk with none.
  unfoldable pub step_into : Option (String → Result Error Graph) → String → Option Graph
  step_into none name = none
  step_into (some get_graph) name = child (get_graph name)

  abbrev pub or_stop : Option Graph → (Graph → Option Graph) → Option Graph
  or_stop none k = none
  or_stop (some g) k = k g

  unfoldable pub walk_path : Graph → List String → Option Graph
  unfolding step_into
  walk_path current [] = some current
  walk_path current (name ∷ path) =
      or_stop (step_into (composite current) name) (λ g. walk_path g path)

  abbrev pub add_graph : Option Graph → List Graph → List Graph
  add_graph none graphs = graphs
  add_graph (some g) graphs = g ∷ graphs

  -- the loop over the paths
  unfoldable pub walk_paths : Graph → List (List String) → List Graph
  unfolding walk_path
  walk_paths pkg [] = []
  walk_paths pkg (path ∷ paths) = add_graph (walk_path pkg path) (walk_paths pkg paths)

  unfoldable pub select_graphs : Graph → List (List String) → List Graph
  unfolding walk_paths
  select_graphs pkg [] = pkg ∷ []
  select_graphs pkg (path ∷ paths) = walk_paths pkg (path ∷ paths)
