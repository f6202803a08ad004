-- ===== src/Registry/Packages.antt =====
-- What bundle/registry/v1 uses of the Kubernetes and operator-framework packages: a parameter. The
-- types are of fields that the code carries from one object to another without looking inside.
use library_olm.Prelude.{ℤ, String, Bool, List, Result, ◌≡◌, true, ◌↔◌, Map}

-- A `corev1.Namespace`: its name, labels and annotations. The kind and version are the type's.
pub record Namespace : Type 0 where
  pub name : String
  pub labels : Map String
  pub annotations : Map String

pub record Kube : Type 1 where
  -- fields of containers, pods and deployments
  pub EnvSource : Type 0
  pub EnvFromSource : Type 0
  pub MountSettings : Type 0
  pub VolumeSource : Type 0
  pub Toleration : Type 0
  pub Resources : Type 0
  pub NodeSelectorTerm : Type 0
  pub PreferredTerm : Type 0
  pub PodTerm : Type 0
  pub WeightedPodTerm : Type 0
  pub ContainerSettings : Type 0
  pub PodSettings : Type 0
  pub DeploymentSettings : Type 0
  -- fields of webhooks, their rules, custom resource definitions and other objects
  pub WebhookSettings : Type 0
  pub RuleSettings : Type 0
  pub Conversion : Type 0
  pub CrdSettings : Type 0
  pub ObjectSettings : Type 0
  -- `reflect.DeepEqual` on two of them
  pub env_from_equal : EnvFromSource → EnvFromSource → Bool
  pub toleration_equal : Toleration → Toleration → Bool
  -- k8s.io/apimachinery/pkg/util/validation: the complaints about a name
  pub is_dns1123_subdomain : String → List String
  pub is_dns1123_label : String → List String
  -- operator-registry's `IsSupported`: is the kind supported, and is it namespaced?
  pub is_supported : String → Bool × Bool
  -- `IntOrString.IntValue` of a string
  pub named_port_value : String → ℤ
  -- sigs.k8s.io/yaml, into a `corev1.Namespace`
  pub YamlError : Type 0
  pub unmarshal_namespace : String → Result YamlError Namespace

-- `reflect.DeepEqual` decides equality of the values that bundles hold.
pub record IsDeepEqual (k : Kube) : Type 0 where
  pub env_from_iff : (a b : k.EnvFromSource) → (k.env_from_equal a b ≡ true) ↔ (a ≡ b)
  pub toleration_iff : (a b : k.Toleration) → (k.toleration_equal a b ≡ true) ↔ (a ≡ b)
