-- ===== src/Generators/Render.antt =====
-- internal/render/render.go: the options, `Render`, and the list of generators of
-- internal/render/registryv1/registryv1.go.
use library_olm.Prelude.{
  String, Option, none, some, List, [], ◌∷◌, Result, ok, err, ◌>>=◌, contains, is_empty,
  if◌then◌else◌,
}
use library_olm.Registry.{Kube, RegistryV1, Permission, all_namespaces, supported_install_modes}
use library_olm.Validators.{ValidationError, validate}
use library_olm.Generators.ObjectNames.{object_name_for_base_and_suffix}
use library_olm.Generators.Objects.{
  Object, CertificateProvider, DeploymentConfig, Options, GeneratorContext, RenderError,
  ServicePort, invalid_bundle, no_unique_name_generator,
}
use library_olm.Generators.Namespaces.{bundle_namespace_generator}
use library_olm.Generators.Permissions.{
  bundle_csv_service_account_generator, bundle_csv_permissions_generator,
  bundle_csv_cluster_permissions_generator,
}
use library_olm.Generators.Resources.{
  bundle_crd_generator, bundle_additional_resources_generator,
  bundle_validating_webhook_resource_generator, bundle_mutating_webhook_resource_generator,
}
use library_olm.Generators.Deployments.{bundle_csv_deployment_generator}
use library_olm.Generators.Services.{bundle_deployment_service_resource_generator}
use library_olm.Generators.Certificates.{cert_provider_resource_generator}

-- How the sets are listed, and the hash of a permission (`DeepHashObject`, of k8s.io).
pub record Runtime : Type 0 where
  pub list_names : List String → List String
  pub list_ports : List ServicePort → List ServicePort
  pub deep_hash_object : Permission → String

module _ (k : Kube) where
  abbrev pub ResourceGenerator : Type 1
  ResourceGenerator =
      RegistryV1 k → Options k → GeneratorContext k → Result (RenderError k) (GeneratorContext k)

  -- `ResourceGenerators.GenerateResources`, which stops at the first error
  unfoldable pub generate_resources :
      List ResourceGenerator
      → RegistryV1 k
      → Options k
      → GeneratorContext k
      → Result (RenderError k) (GeneratorContext k)
  generate_resources [] rv1 opts ctx = ok ctx
  generate_resources (g ∷ gs) rv1 opts ctx =
      g rv1 opts ctx >>= λ ctx'. generate_resources gs rv1 opts ctx'

  abbrev pub resource_generators : Runtime → List ResourceGenerator
  resource_generators rt =
      bundle_namespace_generator k
      ∷ bundle_csv_service_account_generator k rt.list_names
      ∷ bundle_csv_permissions_generator k
      ∷ bundle_csv_cluster_permissions_generator k
      ∷ bundle_crd_generator k
      ∷ bundle_additional_resources_generator k
      ∷ bundle_csv_deployment_generator k
      ∷ bundle_validating_webhook_resource_generator k
      ∷ bundle_mutating_webhook_resource_generator k
      ∷ bundle_deployment_service_resource_generator k rt.list_ports
      ∷ cert_provider_resource_generator k rt.list_names
      ∷ []

  pub data RenderOption : Type 1 where
    with_target_namespaces : List String → RenderOption
    with_self_managed_install_namespace : String → RenderOption
    with_unique_name_generator : Option (String → Permission → Option String) → RenderOption
    with_certificate_provider : Option (CertificateProvider k) → RenderOption
    with_deployment_config : Option (DeploymentConfig k) → RenderOption

  unfoldable pub apply_option : RenderOption → Options k → Options k
  apply_option (with_target_namespaces namespaces) o =
      if is_empty namespaces then o else record o { target_namespaces = namespaces }
  apply_option (with_self_managed_install_namespace name) o = record o {
    self_managed_install_namespace = some name;
  }
  apply_option (with_unique_name_generator generator) o = record o {
    unique_name_generator = generator;
  }
  apply_option (with_certificate_provider provider) o = record o { certificate_provider = provider }
  apply_option (with_deployment_config config) o = record o { deployment_config = config }

  -- the loop of `apply`
  unfoldable pub apply : List RenderOption → Options k → Options k
  unfolding apply_option
  apply [] o = o
  apply (opt ∷ opts) o = apply opts (apply_option opt o)

  abbrev pub default_unique_name_generator : Runtime → String → Permission → Option String
  default_unique_name_generator rt base p =
      object_name_for_base_and_suffix base (rt.deep_hash_object p)

  unfoldable pub default_target_namespaces_for_bundle : RegistryV1 k → List String
  unfolding supported_install_modes
  default_target_namespaces_for_bundle rv1 =
      if contains (supported_install_modes k rv1) all_namespaces then "" ∷ [] else []

  -- `validate` of the options
  abbrev pub check_options : Options k → Result (RenderError k) Unit
  check_options o = has_generator o.unique_name_generator
    where
      has_generator : Option (String → Permission → Option String) → Result (RenderError k) Unit
      has_generator none = err no_unique_name_generator
      has_generator (some generator) = ok tt

  abbrev pub check_bundle : List ValidationError → Result (RenderError k) Unit
  check_bundle [] = ok tt
  check_bundle (e ∷ es) = err (invalid_bundle (e ∷ es))

  unfoldable pub render :
      Runtime
      → List (RegistryV1 k → List ValidationError)
      → List ResourceGenerator
      → RegistryV1 k
      → List RenderOption
      → Result (RenderError k) (List (Object k))
  unfolding apply default_target_namespaces_for_bundle generate_resources
  render rt validators generators rv1 opts =
      let gen_opts = apply opts (record {
        target_namespaces = default_target_namespaces_for_bundle rv1;
        unique_name_generator = some (default_unique_name_generator rt);
        certificate_provider = none;
        deployment_config = none;
        self_managed_install_namespace = none;
      }) in
      check_bundle (validate k validators rv1) >>= λ _. check_options gen_opts >>= λ _.
      generate_resources generators rv1 gen_opts (record { install_namespace = ""; objects = [] })
      >>= λ ctx. ok ctx.objects
