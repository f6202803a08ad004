-- ===== src/Generators/Tests.antt =====
-- Renderings, and the theorems on them.
use Prim.Native.Nat.{◌≤◌}
use Prim.Native.String.{len}
use mathlib.Core.List.{Perm}
use mathlib.Core.List.Perm
use library_olm.Generators.Accepted.{generators_accept_valid}
use library_olm.Generators.Dedupe.{IsAppended, apply_tolerations_config-IsAppended}
use library_olm.Prelude.{
  Map, eq_iff, ◌+◌, ◌<◌, String, ◌≡◌, ◌≢◌, ◌↔◌, ◌&&◌, refl, true, not, none, some, List, [], ◌∷◌,
  ◌++◌, map, ok, All, get, insert, keep, put, flat_map, sort_func, sorted_entries, contains,
  IsDistinct, is_empty, ◌==◌, arith,
}
use library_olm.Samples.{kube}
use library_olm.Registry.{
  IsDeepEqual, Deployment, Webhook, RegistryV1, Namespace, EnvVar, PodSpec, CertSecretInfo, other,
  all_namespaces, supported_install_modes,
}
use library_olm.Validators.{
  bundle_validator, validate, check_deployment_spec_uniqueness,
  check_deployment_name_is_dns1123_subdomain, check_crd_resource_uniqueness,
  check_owned_crd_existence, check_package_name_not_empty, check_conversion_webhook_support,
  check_webhook_deployment_referential_integrity, check_webhook_name_uniqueness,
  check_webhook_name_is_dns1123_subdomain, check_conversion_webhook_crd_reference_uniqueness,
  check_conversion_webhooks_reference_owned_crds, check_webhook_rules, check_object_support,
}
use library_olm.Generators.Permissions.{
  bundle_csv_permissions_generator, bundle_csv_cluster_permissions_generator, promote,
  cluster_role_objects, namespaces_rule,
}
use library_olm.Generators.Resources.{
  crd_to_deployment, bundle_crd_generator, bundle_additional_resources_generator,
  bundle_validating_webhook_resource_generator, bundle_mutating_webhook_resource_generator,
}
use library_olm.Generators.Services.{bundle_deployment_service_resource_generator}
use library_olm.Generators.Certificates.{cert_provider_resource_generator}
use library_olm.Generators.Deployments.{bundle_csv_deployment_generator}
use library_olm.Validators.Validity.{IsValid}
use library_olm.Generators.ObjectNames.{max_name_length, object_name_for_base_and_suffix}
use library_olm.Generators.Objects.{
  DeploymentConfig, Object, namespace_object, service_account, Options, GeneratorContext,
}
use library_olm.Generators.Namespaces.{
  validate_target_namespaces, bundle_namespace_generator, derive_namespace,
}
use library_olm.Generators.Permissions.{bundle_csv_service_account_generator, add_objects}
use library_olm.Generators.Customize.{apply_env, apply_tolerations_config}
use library_olm.Generators.Deployments.{cert_volume_configs, fix_pod_spec}
use library_olm.Generators.Render.{
  Runtime, resource_generators, RenderOption, with_unique_name_generator, apply, render,
}
use library_olm.Generators.NameLength.{len-object_name}
use library_olm.Generators.TargetNamespaces.{allows_targets, validate_target_namespaces_iff}
use library_olm.Generators.InstallNamespace.{IsOrigin, bundle_namespace_generator_lem}
use library_olm.Generators.EnvOverride.{or_else, effective, effective-apply_env}
use library_olm.Generators.CertVolumes.{IsMounted, fix_pod_spec_lem}
use library_olm.Generators.ServiceAccounts.{is_named, bundle_csv_service_account_generator_lem}
use library_olm.Generators.Rendering.{BeginsWith, default_options, render_lem}

abbrev plain : RegistryV1 kube
plain = record {
  package_name = "pkg";
  csv = record {
    name = "pkg.v1";
    annotations = [];
    install_modes = record { mode_type = all_namespaces; supported = true } ∷ [];
    deployment_specs = [];
    permissions =
        record { service_account_name = "operator"; rules = [] }
        ∷ record { service_account_name = ""; rules = [] }
        ∷ [];
    cluster_permissions = record { service_account_name = "operator"; rules = [] } ∷ [];
    owned = [];
    webhook_definitions = [];
  };
  crds = [];
  others = [];
}

abbrev options : Options kube
options = record {
  target_namespaces = "" ∷ [];
  unique_name_generator = some (λ base p. some base);
  certificate_provider = none;
  deployment_config = none;
  self_managed_install_namespace = none;
}

abbrev empty_context : GeneratorContext kube
empty_context = record { install_namespace = ""; objects = [] }

abbrev resolved_context : GeneratorContext kube
resolved_context = record {
  install_namespace = "pkg-system";
  objects = namespace_object (record { name = "pkg-system"; labels = []; annotations = [] }) ∷ [];
}

namespace_resolved :
    bundle_namespace_generator kube plain options empty_context ≡ ok resolved_context
unfolding bundle_namespace_generator get insert contains
namespace_resolved = refl

bundle_namespace_generator_lem_example :
    (is_empty (kube.is_dns1123_label "pkg-system") ≡ true)
    × IsOrigin kube plain none empty_context resolved_context
    × (allows_targets (supported_install_modes kube plain) "pkg-system" ("" ∷ []) ≡ true)
bundle_namespace_generator_lem_example =
    bundle_namespace_generator_lem kube plain options empty_context resolved_context
      namespace_resolved

validate_target_namespaces_iff_example :
    (validate_target_namespaces kube plain "pkg-system" ("a" ∷ "a" ∷ []) ≡ ok tt)
    ↔ (allows_targets (supported_install_modes kube plain) "pkg-system" ("a" ∷ "a" ∷ []) ≡ true)
validate_target_namespaces_iff_example =
    validate_target_namespaces_iff kube plain "pkg-system" ("a" ∷ "a" ∷ [])

abbrev variable : String → String → EnvVar kube
variable name value = record { name = name; value = value }

effective-apply_env_example :
    effective kube
      (apply_env kube
        (variable "A" "1" ∷ variable "B" "2" ∷ variable "A" "3" ∷ [])
        (variable "A" "4" ∷ variable "C" "5" ∷ []))
      "A"
    ≡ or_else
        (effective kube (variable "A" "4" ∷ variable "C" "5" ∷ []) "A")
        (effective kube (variable "A" "1" ∷ variable "B" "2" ∷ variable "A" "3" ∷ []) "A")
effective-apply_env_example =
    effective-apply_env kube (variable "A" "1" ∷ variable "B" "2" ∷ variable "A" "3" ∷ [])
      (variable "A" "4" ∷ variable "C" "5" ∷ []) "A"

abbrev mounting : PodSpec kube
mounting = record {
  containers =
      record {
        env = [];
        env_from = [];
        volume_mounts =
            record {
              name = "old";
              mount_path = "/tmp/k8s-webhook-server/serving-certs";
              settings = none;
            }
            ∷ record { name = "data"; mount_path = "/data"; settings = none }
            ∷ [];
        resources = "";
        settings = "";
      }
      ∷ [];
  volumes =
      record { name = "old"; source = other "empty" }
      ∷ record { name = "data"; source = other "empty" }
      ∷ [];
  tolerations = [];
  node_selector = [];
  affinity = none;
  settings = "";
}

abbrev certificate : CertSecretInfo
certificate = record {
  secret_name = "cert";
  certificate_key = "tls.crt";
  private_key_key = "tls.key";
}

fix_pod_spec_lem_example :
    All (IsMounted kube certificate (fix_pod_spec kube certificate mounting)) cert_volume_configs
fix_pod_spec_lem_example = fix_pod_spec_lem kube certificate mounting

abbrev in_order : List String → List String
in_order names = names

listed : (names : List String) → Perm (in_order names) names
listed names = Perm.refl names

bundle_csv_service_account_generator_lem_example :
    (names : List String) × (bundle_csv_service_account_generator kube in_order plain options
        resolved_context
      ≡ ok (
          add_objects kube resolved_context
            (map (λ name. service_account name "pkg-system") names)))
    × IsDistinct names
    × ((n : String)
        → contains names n ≡ (
            is_named (plain.csv.permissions ++ plain.csv.cluster_permissions) n
            && not (n == "default")))
bundle_csv_service_account_generator_lem_example =
    bundle_csv_service_account_generator_lem kube in_order listed plain options resolved_context

short_suffix : len "service" < max_name_length
short_suffix = omega arith

len-object_name_example :
    (name : String) × (object_name_for_base_and_suffix
        "deployment-with-a-name-of-fifty-six-characters-in-it-abc" "service"
      ≡ some name)
    × (len "deployment-with-a-name-of-fifty-six-characters-in-it-abc" + len "service"
          ≢ max_name_length
        → len name ≤ max_name_length)
    × (len "deployment-with-a-name-of-fifty-six-characters-in-it-abc" + len "service"
          ≡ max_name_length
        → len name ≡ 64)
len-object_name_example =
    len-object_name "deployment-with-a-name-of-fifty-six-characters-in-it-abc" "service"
      short_suffix

abbrev runtime : Runtime
runtime = record {
  list_names = in_order;
  list_ports = λ ports. ports;
  deep_hash_object = λ p. "hash";
}

abbrev named_as_asked : List (RenderOption kube)
named_as_asked = with_unique_name_generator (some (λ base p. some base)) ∷ []

abbrev rendered : List (Object kube)
rendered =
    namespace_object (record { name = "pkg-system"; labels = []; annotations = [] })
      ∷ service_account "operator" "pkg-system"
      ∷ cluster_role_objects kube resolved_context
          (record { service_account_name = "operator"; rules = [] }) "pkg.v1-operator"
    ++ cluster_role_objects kube resolved_context
        (record { service_account_name = "operator"; rules = namespaces_rule ∷ [] })
        "pkg.v1-operator"
    ++ cluster_role_objects kube resolved_context
        (record { service_account_name = ""; rules = namespaces_rule ∷ [] }) "pkg.v1-default"

plain-rendered :
    render kube runtime
      (bundle_validator kube)
      (resource_generators kube runtime)
      plain
      named_as_asked
    ≡ ok rendered
unfolding render validate flat_map check_deployment_spec_uniqueness
    check_deployment_name_is_dns1123_subdomain check_crd_resource_uniqueness
    check_owned_crd_existence check_package_name_not_empty check_conversion_webhook_support
    check_webhook_deployment_referential_integrity check_webhook_name_uniqueness
    check_webhook_name_is_dns1123_subdomain check_conversion_webhook_crd_reference_uniqueness
    check_conversion_webhooks_reference_owned_crds check_webhook_rules check_object_support
    bundle_namespace_generator bundle_csv_service_account_generator bundle_csv_permissions_generator
    bundle_csv_cluster_permissions_generator bundle_crd_generator
    bundle_additional_resources_generator bundle_csv_deployment_generator
    bundle_validating_webhook_resource_generator bundle_mutating_webhook_resource_generator
    bundle_deployment_service_resource_generator cert_provider_resource_generator promote get put
    insert keep contains sort_func sorted_entries
plain-rendered = refl

render_lem_example :
    IsValid kube plain
    × ((apply kube named_as_asked
            (default_options kube runtime plain)).self_managed_install_namespace
          ≡ none
        → (ns : Namespace) × (derive_namespace kube plain ≡ ok ns)
          × (is_empty (kube.is_dns1123_label ns.name) ≡ true)
          × BeginsWith kube ns rendered)
render_lem_example = render_lem kube runtime plain named_as_asked rendered plain-rendered

plain-IsValid : IsValid kube plain
plain-IsValid = (render_lem kube runtime plain named_as_asked rendered plain-rendered).0

generators_accept_valid_example :
    ((opts : Options kube) (ctx : GeneratorContext kube)
      → (ctx' : GeneratorContext kube) × (bundle_additional_resources_generator kube plain opts ctx
          ≡ ok ctx'))
    × ((m : Map (Webhook kube)) × (crd_to_deployment kube plain.csv.webhook_definitions [] ≡ ok m))
generators_accept_valid_example = generators_accept_valid kube plain plain-IsValid

kube-IsDeepEqual : IsDeepEqual kube
kube-IsDeepEqual = record { env_from_iff = λ a b. eq_iff a b; toleration_iff = λ a b. eq_iff a b }

abbrev tolerant : Deployment kube
tolerant = record {
  name = "operator";
  namespace = "pkg-system";
  labels = [];
  annotations = [];
  spec = record {
    template = record { annotations = []; spec = record mounting { tolerations = "a" ∷ [] } };
    revision_history_limit = none;
    match_labels = none;
    settings = "";
  };
}

abbrev more_tolerant : DeploymentConfig kube
more_tolerant = record {
  env = [];
  env_from = [];
  volumes = [];
  volume_mounts = [];
  tolerations = "b" ∷ "a" ∷ "b" ∷ [];
  resources = none;
  node_selector = none;
  affinity = none;
  annotations = [];
}

apply_tolerations_config-IsAppended_example :
    IsAppended kube.toleration_equal
      ("a" ∷ [])
      ("b" ∷ "a" ∷ "b" ∷ [])
      (apply_tolerations_config kube tolerant more_tolerant).spec.template.spec.tolerations
apply_tolerations_config-IsAppended_example =
    apply_tolerations_config-IsAppended kube kube-IsDeepEqual tolerant more_tolerant
