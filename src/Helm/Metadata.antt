-- ===== src/Helm/Metadata.antt =====
-- bundle/helm/v1/internal/validate/metadata.go: the labels and annotations that rendered objects have.
use Prim.Native.Char.{code}
use library_olm.Prelude.{
  String, Bool, true, false, ◌&&◌, List, [], ◌∷◌, ◌++◌, contains, nat_eq, if◌then◌else◌,
}

-- `strings.HasPrefix` of the prefix
unfoldable pub has_prefix : String → String → Bool
has_prefix String.[] s = true
has_prefix (String.◌∷◌ c prefix) String.[] = false
has_prefix (String.◌∷◌ c prefix) (String.◌∷◌ d s) = nat_eq (code c) (code d) && has_prefix prefix s

-- What the check reads of an object: its kind, its name and the keys of its maps.
pub record HelmObject : Type 0 where
  pub kind : String
  pub name : String
  pub annotations : List String
  pub labels : List String

pub data MetadataError : Type 0 where
  disallowed_annotation : String → String → String → MetadataError
  disallowed_label : String → String → String → MetadataError

abbrev pub annotation_allow_list : List String
annotation_allow_list = []

abbrev pub label_allow_list : List String
label_allow_list = "helm.sh/chart" ∷ []

-- The loop over the keys of one map.
unfoldable pub disallowed :
    (String → MetadataError) → List String → List String → List MetadataError
unfolding has_prefix contains
disallowed mk allow_list [] = []
disallowed mk allow_list (key ∷ keys) =
    let rest = disallowed mk allow_list keys in
    if has_prefix "helm.sh/" key
    then (if contains allow_list key then rest else mk key ∷ rest)
    else rest

-- `HelmMetadata`, whose errors are joined: nil where there are none.
unfoldable pub helm_metadata : List HelmObject → List MetadataError
unfolding disallowed
helm_metadata [] = []
helm_metadata (obj ∷ objects) =
    disallowed (disallowed_annotation obj.kind obj.name) annotation_allow_list obj.annotations
    ++ (disallowed (disallowed_label obj.kind obj.name) label_allow_list obj.labels
        ++ helm_metadata objects)
