-- ===== src/Generators/Objects.antt =====
-- The objects that rendering produces (`client.Object`), the options, and the certificate provider,
-- from internal/render/render.go, certprovider.go and registryv1/generators/resources.go. An object's
-- kind and API version are those of its constructor.
use library_olm.Prelude.{String, Option, List, Result, ℤ, Map}
use library_olm.Validators.{ValidationError}
use library_olm.Registry.{
  Kube, Namespace, Deployment, Crd, Unstructured, PolicyRule, Permission, WebhookRule, IntOrString,
  CertSecretInfo, EnvVar, Volume, VolumeMount, Affinity,
}

pub record ServiceReference : Type 0 where
  pub namespace : String
  pub name : String
  pub path : Option String
  pub port : ℤ

pub record Subject : Type 0 where
  pub kind : String
  pub namespace : String
  pub name : String

pub record RoleRef : Type 0 where
  pub api_group : String
  pub kind : String
  pub name : String

pub record ServicePort : Type 0 where
  pub name : String
  pub port : ℤ
  pub target_port : IntOrString

-- `namespace_selector` holds the values of the requirement that the namespace is one of them.
module _ (k : Kube) where
  pub record WebhookConfiguration : Type 0 where
    pub name : String
    pub namespace : String
    pub rules : List (WebhookRule k)
    pub settings : k.WebhookSettings
    pub admission_review_versions : List String
    pub service : ServiceReference
    pub namespace_selector : Option (List String)

  pub data Object : Type 0 where
    namespace_object : Namespace → Object
    -- name and namespace
    service_account : String → String → Object
    role : String → String → List PolicyRule → Object
    role_binding : String → String → List Subject → RoleRef → Object
    -- name
    cluster_role : String → List PolicyRule → Object
    cluster_role_binding : String → List Subject → RoleRef → Object
    crd_object : Crd k → Object
    unstructured : Unstructured k → Object
    deployment : Deployment k → Object
    validating_configuration : WebhookConfiguration → Object
    mutating_configuration : WebhookConfiguration → Object
    -- name, namespace, ports and label selector
    service : String → String → List ServicePort → Option (Map String) → Object

  -- `config.DeploymentConfig`. Resources, node selector and affinity may be nil.
  pub record DeploymentConfig : Type 0 where
    pub env : List (EnvVar k)
    pub env_from : List k.EnvFromSource
    pub volumes : List (Volume k)
    pub volume_mounts : List (VolumeMount k)
    pub tolerations : List k.Toleration
    pub resources : Option k.Resources
    pub node_selector : Option (Map String)
    pub affinity : Option (Affinity k)
    pub annotations : Map String

-- `CertificateProvisionerConfig` but for the provider
pub record ProvisionerConfig : Type 0 where
  pub service_name : String
  pub cert_name : String
  pub namespace : String

-- The errors of `validateTargetNamespaces`, with the supported install modes.
pub data TargetError : Type 0 where
  one_or_more_needed : TargetError
  one_needed : TargetError
  no_all_namespaces : List String → TargetError
  no_own_namespace : List String → TargetError
  unsupported_targets : List String → List String → TargetError

module _ (k : Kube) where
  -- The interface `CertificateProvider`. `inject_ca_bundle` returns the object as it has changed it.
  pub record CertificateProvider : Type 1 where
    pub Error : Type 0
    pub inject_ca_bundle : Object k → ProvisionerConfig → Result Error (Object k)
    pub additional_objects : ProvisionerConfig → Result Error (List (Unstructured k))
    pub get_cert_secret_info : ProvisionerConfig → CertSecretInfo

  pub record Options : Type 1 where
    pub target_namespaces : List String
    -- none where the generator panics
    pub unique_name_generator : Option (String → Permission → Option String)
    pub certificate_provider : Option CertificateProvider
    pub deployment_config : Option (DeploymentConfig k)
    pub self_managed_install_namespace : Option String

  pub record GeneratorContext : Type 0 where
    pub install_namespace : String
    pub objects : List (Object k)

  pub data RenderError : Type 0 where
    invalid_bundle : List ValidationError → RenderError
    no_unique_name_generator : RenderError
    -- names, with the complaints about them
    invalid_self_managed_namespace : String → List String → RenderError
    invalid_install_namespace : String → List String → RenderError
    unmarshal_template : k.YamlError → RenderError
    -- the target namespaces, and what is wrong with them
    invalid_target_namespaces : List String → TargetError → RenderError
    shared_conversion_crd : String → RenderError
    preserves_unknown_fields : String → RenderError
    -- name and kind
    unsupported_resource : String → String → RenderError
    certificate_error : RenderError
    -- a panic of Go
    panicked : RenderError
