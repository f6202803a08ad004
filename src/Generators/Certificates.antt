-- ===== src/Generators/Certificates.antt =====
-- internal/render/certprovider.go, and the generators of generators.go for the services of webhooks
-- and for certificates.
use library_olm.Prelude.{
  String, Option, none, some, List, [], ◌∷◌, ◌++◌, map, Map, get, put, Result, ok, err, ◌>>=◌,
  wrap_err, contains, insert, if◌then◌else◌, ◌==◌,
}
use library_olm.Registry.{
  Kube, RegistryV1, Webhook, Deployment, conversion_webhook, validating_webhook, mutating_webhook,
  CertSecretInfo, Unstructured,
}
use library_olm.Generators.ObjectNames.{object_name_for_base_and_suffix}
use library_olm.Generators.Resources.{service_name, trim_dash}
use library_olm.Generators.Deployments.{ensure_correct_deployment_cert_volumes}
use library_olm.Generators.Objects.{
  Object, crd_object, deployment, unstructured, validating_configuration, mutating_configuration,
  service, CertificateProvider, ProvisionerConfig, Options, GeneratorContext, RenderError, panicked,
  certificate_error,
}

module _ (k : Kube) where
  -- The methods of `CertificateProvisioner`, which do nothing without a provider.
  unfoldable pub inject_ca_bundle :
      Option (CertificateProvider k)
      → ProvisionerConfig
      → Object k
      → Result (RenderError k) (Object k)
  inject_ca_bundle none cfg obj = ok obj
  inject_ca_bundle (some p) cfg obj = wrap_err (λ _. certificate_error) (p.inject_ca_bundle obj cfg)

  unfoldable pub additional_objects :
      Option (CertificateProvider k)
      → ProvisionerConfig
      → Result (RenderError k) (List (Unstructured k))
  additional_objects none cfg = ok []
  additional_objects (some p) cfg = wrap_err (λ _. certificate_error) (p.additional_objects cfg)

  unfoldable pub get_cert_secret_info :
      Option (CertificateProvider k) → ProvisionerConfig → Option CertSecretInfo
  get_cert_secret_info none cfg = none
  get_cert_secret_info (some p) cfg = some (p.get_cert_secret_info cfg)

  -- `CertProvisionerForService`, of the service of a deployment
  unfoldable pub provisioner_for_deployment :
      GeneratorContext k → String → Result (RenderError k) ProvisionerConfig
  provisioner_for_deployment ctx deployment_name = service_name k deployment_name >>= λ name.
      or_panic (object_name_for_base_and_suffix name "cert") >>= λ cert_name.
      ok (record { service_name = name; cert_name = cert_name; namespace = ctx.install_namespace })
    where
      or_panic : Option String → Result (RenderError k) String
      or_panic none = err panicked
      or_panic (some name) = ok name

  -- The set and the maps that the first loop fills.
  pub record CertTargets : Type 0 where
    pub deployments : List String
    pub conversion_crds : Map ProvisionerConfig
    pub validating : Map ProvisionerConfig
    pub mutating : Map ProvisionerConfig
    pub services : Map ProvisionerConfig

  unfoldable pub put_all {ℓ} : {A : Type ℓ} → Map A → List String → A → Map A
  put_all m [] a = m
  put_all m (key ∷ ks) a = put_all (put m key a) ks a

  -- one round of the loop
  unfoldable pub add_target : Webhook k → ProvisionerConfig → CertTargets → CertTargets
  unfolding put_all trim_dash
  add_target wh cfg t = record {
    deployments = insert t.deployments wh.deployment_name;
    conversion_crds =
        if wh.webhook_type == conversion_webhook
        then put_all t.conversion_crds wh.conversion_crds cfg
        else t.conversion_crds;
    validating =
        if wh.webhook_type == validating_webhook
        then put t.validating (trim_dash wh.generate_name) cfg
        else t.validating;
    mutating =
        if wh.webhook_type == mutating_webhook
        then put t.mutating (trim_dash wh.generate_name) cfg
        else t.mutating;
    services = put t.services cfg.service_name cfg;
  }

  unfoldable pub cert_targets :
      GeneratorContext k → List (Webhook k) → CertTargets → Result (RenderError k) CertTargets
  unfolding provisioner_for_deployment add_target
  cert_targets ctx [] t = ok t
  cert_targets ctx (wh ∷ whs) t = provisioner_for_deployment ctx wh.deployment_name >>= λ cfg.
      cert_targets ctx whs (add_target wh cfg t)

  abbrev pub inject_if :
      Option (CertificateProvider k)
      → Option ProvisionerConfig
      → Object k
      → Result (RenderError k) (Object k)
  inject_if provider none obj = ok obj
  inject_if provider (some cfg) obj = inject_ca_bundle provider cfg obj

  abbrev pub mount_certificate : Deployment k → Option CertSecretInfo → Deployment k
  mount_certificate d none = d
  mount_certificate d (some info) = ensure_correct_deployment_cert_volumes k d info

  -- the body of the loop over the objects
  unfoldable pub certify :
      Options k → GeneratorContext k → CertTargets → Object k → Result (RenderError k) (Object k)
  unfolding inject_ca_bundle get_cert_secret_info provisioner_for_deployment
  certify opts ctx t (deployment d) =
      if contains t.deployments d.name
      then (provisioner_for_deployment ctx d.name >>= λ cfg.
          ok
            (deployment (mount_certificate d (get_cert_secret_info opts.certificate_provider cfg))))
      else ok (deployment d)
  certify opts ctx t (crd_object crd) =
      inject_if opts.certificate_provider (get t.conversion_crds crd.name) (crd_object crd)
  certify opts ctx t (validating_configuration cfg) =
      inject_if opts.certificate_provider (get t.validating cfg.name) (validating_configuration cfg)
  certify opts ctx t (mutating_configuration cfg) =
      inject_if opts.certificate_provider (get t.mutating cfg.name) (mutating_configuration cfg)
  certify opts ctx t (service name ns ports selector) =
      inject_if opts.certificate_provider (get t.services name) (service name ns ports selector)
  certify opts ctx t obj = ok obj

  unfoldable pub certify_all :
      Options k
      → GeneratorContext k
      → CertTargets
      → List (Object k)
      → Result (RenderError k) (List (Object k))
  unfolding certify
  certify_all opts ctx t [] = ok []
  certify_all opts ctx t (obj ∷ objs) =
      let rest = certify_all opts ctx t objs in
      certify opts ctx t obj >>= λ obj'. rest >>= λ objs'. ok (obj' ∷ objs')

  unfoldable pub provider_objects :
      Options k → GeneratorContext k → List String → Result (RenderError k) (List (Object k))
  unfolding additional_objects provisioner_for_deployment
  provider_objects opts ctx [] = ok []
  provider_objects opts ctx (name ∷ names) =
      let rest = provider_objects opts ctx names in
      provisioner_for_deployment ctx name >>= λ cfg.
      additional_objects opts.certificate_provider cfg >>= λ objs.
      rest >>= λ more. ok (map unstructured objs ++ more)

  -- `unsorted_list` lists a set, in an order that Go does not fix.
  unfoldable pub cert_provider_resource_generator :
      (List String → List String)
      → RegistryV1 k
      → Options k
      → GeneratorContext k
      → Result (RenderError k) (GeneratorContext k)
  unfolding cert_targets certify_all provider_objects
  cert_provider_resource_generator unsorted_list rv1 opts ctx =
      cert_targets ctx rv1.csv.webhook_definitions (record {
        deployments = [];
        conversion_crds = [];
        validating = [];
        mutating = [];
        services = [];
      })
      >>= λ t. certify_all opts ctx t ctx.objects >>= λ objs.
          provider_objects opts ctx (unsorted_list t.deployments) >>= λ more.
          ok (record ctx { objects = objs ++ more })
