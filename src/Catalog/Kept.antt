-- ===== src/Catalog/Kept.antt =====
-- What every method of a `Writer` (catalog/v1/store.go) keeps, and importers that write by them only.
use library_olm.Prelude.{String, List, ok, ◌≡◌}
use library_olm.Catalog.Store.{Writer, Importer}

module _ (Value WriterError : Type 0) where
  module _ (w : Writer Value WriterError) (P : w.Content → Type 0) where
    pub record Keeps : Type 0 where
      pub insert_bundle :
          (id pkg version release uri : String) (c c' : w.Content)
          → w.insert_bundle id pkg version release uri c ≡ ok c'
          → P c
          → P c'
      pub create_graph :
          (path : List String) (c c' : w.Content) → w.create_graph path c ≡ ok c' → P c → P c'
      pub add_bundle_to_graph :
          (path : List String) (id : String) (c c' : w.Content)
          → w.add_bundle_to_graph path id c ≡ ok c'
          → P c
          → P c'
      pub add_edge :
          (path : List String) (from to : String) (c c' : w.Content)
          → w.add_edge path from to c ≡ ok c'
          → P c
          → P c'
      pub add_predecessor_range :
          (path : List String) (id range : String) (c c' : w.Content)
          → w.add_predecessor_range path id range c ≡ ok c'
          → P c
          → P c'
      pub set_bundle_property :
          (id key : String) (value : Value) (c c' : w.Content)
          → w.set_bundle_property id key value c ≡ ok c'
          → P c
          → P c'
      pub set_graph_property :
          (path : List String) (key : String) (value : Value) (c c' : w.Content)
          → w.set_graph_property path key value c ≡ ok c'
          → P c
          → P c'
      pub set_graph_deprecation :
          (path : List String) (message : String) (c c' : w.Content)
          → w.set_graph_deprecation path message c ≡ ok c'
          → P c
          → P c'
      pub set_bundle_deprecation :
          (id message : String) (c c' : w.Content)
          → w.set_bundle_deprecation id message c ≡ ok c'
          → P c
          → P c'

  -- Whatever the methods keep, the import keeps: it has no other way to the content.
  abbrev pub IsImporter : {Failure : Type 0} → Importer Value WriterError Failure → Type 1
  IsImporter imp =
      (w : Writer Value WriterError) (P : w.Content → Type 0)
      → Keeps w P
      → (c : w.Content) → P c
      → P (imp.import_content w c).0
