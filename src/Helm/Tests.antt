-- ===== src/Helm/Tests.antt =====
-- The theorem on Helm's labels and annotations at concrete objects.
use library_olm.Prelude.{List, [], ◌∷◌, all, is_empty, ◌≡◌}
use library_olm.Helm.{HelmObject, helm_metadata}
use library_olm.Helm.Plain.{helm_metadata_iff, is_plain}

abbrev sample_objects : List HelmObject
sample_objects =
    record { kind = "Service"; name = "s"; annotations = "a" ∷ []; labels = "helm.sh/chart" ∷ [] }
    ∷ record { kind = "Job"; name = "j"; annotations = "helm.sh/hook" ∷ []; labels = [] }
    ∷ []

helm_metadata_iff_example : is_empty (helm_metadata sample_objects) ≡ all is_plain sample_objects
helm_metadata_iff_example = helm_metadata_iff sample_objects
