-- ===== src/Validators/Tests.antt =====
-- A bundle, its validation, and the theorems on it.
use library_olm.Validators.References.{
  check_webhook_deployment_referential_integrity, webhooks_by_deployment, append_at, delete_all,
}
use library_olm.Validators.Webhooks.{total}
use library_olm.Validators.Names.{deployment_names, check_deployment_spec_uniqueness}
use library_olm.Validators.Duplicates.{is_repeated, check_deployment_spec_uniqueness-exact}
use library_olm.Prelude.{
  String, List, map, IsDistinct, IsSorted, compare_strings, put, get, delete, keep, flat_map,
  sorted_entries, sort_func, ◌≡◌, ◌↔◌, refl, true, false, none, [], ◌∷◌, ℤ, contains,
}
use library_olm.Samples.{kube}
use library_olm.Registry.{
  StrategyDeployment, RegistryV1, Webhook, all_namespaces, own_namespace, conversion_webhook,
  supported_install_modes,
}
use library_olm.Validators.Errors.{duplicate_deployment, missing_deployment}
use library_olm.Validators.Validate.{bundle_validator, validate}
use library_olm.Validators.SupportChecks.{supports, contains-supported_install_modes}
use library_olm.Validators.Validity.{IsValid, validate_iff}

abbrev converter : Webhook kube
converter = record {
  webhook_type = conversion_webhook;
  generate_name = "converter";
  deployment_name = "operator";
  container_port = ℤ.pos 443;
  target_port = none;
  webhook_path = none;
  rules = [];
  admission_review_versions = "v1" ∷ [];
  conversion_crds = "things.example.com" ∷ [];
  settings = "";
}

abbrev twin : StrategyDeployment kube
twin = record {
  name = "twin";
  label = [];
  spec = record {
    template = record {
      annotations = [];
      spec = record {
        containers = [];
        volumes = [];
        tolerations = [];
        node_selector = [];
        affinity = none;
        settings = "";
      };
    };
    revision_history_limit = none;
    match_labels = none;
    settings = "";
  };
}

-- Two deployments have one name, the webhook has no deployment, and the definition that it converts is not owned.
abbrev broken : RegistryV1 kube
broken = record {
  package_name = "pkg";
  csv = record {
    name = "pkg.v1";
    annotations = [];
    install_modes =
        record { mode_type = all_namespaces; supported = true }
        ∷ record { mode_type = own_namespace; supported = false }
        ∷ [];
    deployment_specs = twin ∷ twin ∷ [];
    permissions = [];
    cluster_permissions = [];
    owned = [];
    webhook_definitions = converter ∷ [];
  };
  crds = [];
  others = [];
}

broken_reference :
    check_webhook_deployment_referential_integrity kube broken
    ≡ missing_deployment conversion_webhook "converter" "operator" ∷ []
unfolding check_webhook_deployment_referential_integrity webhooks_by_deployment append_at delete_all
    total put get delete keep flat_map sorted_entries sort_func
broken_reference = refl

validate_iff_example : (validate kube (bundle_validator kube) broken ≡ []) ↔ IsValid kube broken
validate_iff_example = validate_iff kube broken

contains-supported_install_modes_example :
    contains (supported_install_modes kube broken) own_namespace
    ≡ supports broken.csv.install_modes own_namespace
contains-supported_install_modes_example =
    contains-supported_install_modes kube broken own_namespace

check_deployment_spec_uniqueness-exact_example :
    (names : List String) × (check_deployment_spec_uniqueness kube broken
      ≡ map duplicate_deployment names)
    × IsDistinct names
    × IsSorted compare_strings names
    × ((n : String) → contains names n ≡ is_repeated (deployment_names kube broken) n)
check_deployment_spec_uniqueness-exact_example = check_deployment_spec_uniqueness-exact kube broken
