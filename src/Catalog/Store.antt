-- ===== src/Catalog/Store.antt =====
-- catalog/v1/store.go: the interfaces `Writer` and `Importer` and the options of `Set`.
use library_olm.Prelude.{String, Option, none, some, List, [], ◌∷◌, Result, ℤ, Map}

-- What `Import` returns: nil, an error that is a `PartialImportError`, or any other error.
pub data ImportOutcome {ℓ} (Failure : Type ℓ) : Type ℓ where
  imported : ImportOutcome Failure
  partially_imported : Failure → ImportOutcome Failure
  import_failed : Failure → ImportOutcome Failure

-- `Value` is the type `any` of property values.
module _ (Value WriterError : Type 0) where
  -- A method returns the content as it has changed it; one that fails has changed nothing.
  pub record Writer : Type 1 where
    pub Content : Type 0
    pub insert_bundle :
        String → String → String → String → String → Content → Result WriterError Content
    pub create_graph : List String → Content → Result WriterError Content
    pub add_bundle_to_graph : List String → String → Content → Result WriterError Content
    pub add_edge : List String → String → String → Content → Result WriterError Content
    pub add_predecessor_range : List String → String → String → Content → Result WriterError Content
    pub set_bundle_property : String → String → Value → Content → Result WriterError Content
    pub set_graph_property : List String → String → Value → Content → Result WriterError Content
    pub set_graph_deprecation : List String → String → Content → Result WriterError Content
    pub set_bundle_deprecation : String → String → Content → Result WriterError Content

  module _ (Failure : Type 0) where
    -- An import that fails may have written some content.
    pub record Importer : Type 1 where
      pub import_content : (w : Writer) → w.Content → w.Content × ImportOutcome Failure

    pub record ContentConfig : Type 1 where
      pub importer : Importer
      pub digest : String

    pub record SetConfig : Type 1 where
      pub uri : Option String
      pub priority : Option ℤ
      pub labels : Option (Map String)
      pub content : Option ContentConfig

    pub data SetOption : Type 1 where
      with_uri : String → SetOption
      with_priority : ℤ → SetOption
      with_labels : Map String → SetOption
      with_content : Importer → String → SetOption

    abbrev no_set_options : SetConfig
    no_set_options = record { uri = none; priority = none; labels = none; content = none }

    unfoldable pub apply_set_option : SetOption → SetConfig → SetConfig
    apply_set_option (with_uri uri) c = record c { uri = some uri }
    apply_set_option (with_priority priority) c = record c { priority = some priority }
    apply_set_option (with_labels labels) c = record c { labels = some labels }
    apply_set_option (with_content importer digest) c = record c {
      content = some (record { importer = importer; digest = digest });
    }

    unfoldable pub apply_each : List SetOption → SetConfig → SetConfig
    unfolding apply_set_option
    apply_each [] cfg = cfg
    apply_each (opt ∷ opts) cfg = apply_each opts (apply_set_option opt cfg)

    unfoldable pub apply_set_options : List SetOption → SetConfig
    unfolding apply_each
    apply_set_options opts = apply_each opts no_set_options
