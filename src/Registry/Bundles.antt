-- ===== src/Registry/Bundles.antt =====
-- bundle/registry/v1/internal/bundle/registryv1.go: the type `RegistryV1` with the fields that the
-- code reads of a cluster service version, and the supported install modes.
use library_olm.Prelude.{String, Bool, Option, List, [], ◌∷◌, ℤ, Map, insert, if◌then◌else◌}
use library_olm.Registry.Packages.{Kube}
use library_olm.Registry.Workloads.{DeploymentSpec}

-- `v1alpha1.InstallModeType` and `v1alpha1.WebhookAdmissionType`, which are strings.
abbrev pub own_namespace : String
own_namespace = "OwnNamespace"

abbrev pub single_namespace : String
single_namespace = "SingleNamespace"

abbrev pub multi_namespace : String
multi_namespace = "MultiNamespace"

abbrev pub all_namespaces : String
all_namespaces = "AllNamespaces"

abbrev pub validating_webhook : String
validating_webhook = "ValidatingAdmissionWebhook"

abbrev pub mutating_webhook : String
mutating_webhook = "MutatingAdmissionWebhook"

abbrev pub conversion_webhook : String
conversion_webhook = "ConversionWebhook"

pub record InstallMode : Type 0 where
  pub mode_type : String
  pub supported : Bool

-- `intstr.IntOrString`
pub data IntOrString : Type 0 where
  int_port : ℤ → IntOrString
  named_port : String → IntOrString

pub record PolicyRule : Type 0 where
  pub verbs : List String
  pub api_groups : List String
  pub resources : List String
  pub resource_names : List String
  pub non_resource_urls : List String

pub record Permission : Type 0 where
  pub service_account_name : String
  pub rules : List PolicyRule

-- the loop over the install modes
unfoldable pub collect_modes : List InstallMode → List String → List String
collect_modes [] modes = modes
collect_modes (im ∷ ims) modes =
    collect_modes ims (if im.supported then insert modes im.mode_type else modes)

module _ (k : Kube) where
  pub record WebhookRule : Type 0 where
    pub api_groups : List String
    pub resources : List String
    pub settings : k.RuleSettings

  pub record Webhook : Type 0 where
    pub webhook_type : String
    pub generate_name : String
    pub deployment_name : String
    pub container_port : ℤ
    pub target_port : Option IntOrString
    pub webhook_path : Option String
    pub rules : List WebhookRule
    pub admission_review_versions : List String
    pub conversion_crds : List String
    pub settings : k.WebhookSettings

  pub record StrategyDeployment : Type 0 where
    pub name : String
    pub label : Map String
    pub spec : DeploymentSpec k

  pub record Csv : Type 0 where
    pub name : String
    pub annotations : Map String
    pub install_modes : List InstallMode
    pub deployment_specs : List StrategyDeployment
    pub permissions : List Permission
    pub cluster_permissions : List Permission
    -- the names of `CustomResourceDefinitions.Owned`
    pub owned : List String
    pub webhook_definitions : List Webhook

  -- `apiextensionsv1.CustomResourceConversion`: by a webhook's service, with the review versions, or
  -- as the bundle has it. The service is its namespace, name, path and port.
  pub data Conversion : Type 0 where
    by_webhook : String → String → String → ℤ → List String → Conversion
    as_given : k.Conversion → Conversion

  pub record Crd : Type 0 where
    pub name : String
    pub preserve_unknown_fields : Bool
    pub conversion : Option Conversion
    pub settings : k.CrdSettings

  pub record Unstructured : Type 0 where
    pub kind : String
    pub name : String
    pub namespace : String
    pub settings : k.ObjectSettings

  pub record RegistryV1 : Type 0 where
    pub package_name : String
    pub csv : Csv
    pub crds : List Crd
    pub others : List Unstructured

  unfoldable pub supported_install_modes : RegistryV1 → List String
  unfolding collect_modes
  supported_install_modes rv1 = collect_modes rv1.csv.install_modes []
