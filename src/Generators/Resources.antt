-- ===== src/Generators/Resources.antt =====
-- internal/render/registryv1/generators/generators.go: custom resource definitions, other objects,
-- webhook configurations and the services of webhooks.
use Prim.Native.Char.{code}
use library_olm.Prelude.{
  String, not, ◌&&◌, Option, none, some, List, [], ◌∷◌, Map, keys, get, put, get_or, Result, ok,
  err, ◌>>=◌, contains, keep, is_empty, nat_eq, if◌then◌else◌, ◌==◌,
}
use library_olm.Registry.{
  Kube, RegistryV1, Webhook, Crd, by_webhook, Unstructured, conversion_webhook, validating_webhook,
  mutating_webhook,
}
use library_olm.Generators.ObjectNames.{webhook_service_name_for_deployment}
use library_olm.Generators.Permissions.{add_objects}
use library_olm.Generators.Objects.{
  Object, crd_object, unstructured, WebhookConfiguration, validating_configuration,
  mutating_configuration, Options, GeneratorContext, RenderError, panicked, shared_conversion_crd,
  preserves_unknown_fields, unsupported_resource,
}

-- `strings.TrimSuffix(s, "-")`
unfoldable pub trim_dash : String → String
trim_dash String.[] = ""
trim_dash (String.◌∷◌ c s) =
    let rest = trim_dash s in
    if s == "" then (if nat_eq (code c) b'-' then "" else String.◌∷◌ c "") else String.◌∷◌ c rest

module _ (k : Kube) where
  abbrev pub service_name : String → Result (RenderError k) String
  service_name deployment_name = or_panic (webhook_service_name_for_deployment deployment_name)
    where
      or_panic : Option String → Result (RenderError k) String
      or_panic none = err panicked
      or_panic (some name) = ok name

  -- the inner loop over `ConversionCRDs`
  unfoldable pub claim_crds :
      Webhook k → List String → Map (Webhook k) → Result (RenderError k) (Map (Webhook k))
  claim_crds wh [] m = ok m
  claim_crds wh (crd ∷ crds) m =
      let rest = claim_crds wh crds (put m crd wh) in
      if contains (keys m) crd then err (shared_conversion_crd crd) else rest

  unfoldable pub crd_to_deployment :
      List (Webhook k) → Map (Webhook k) → Result (RenderError k) (Map (Webhook k))
  unfolding claim_crds
  crd_to_deployment [] m = ok m
  crd_to_deployment (wh ∷ whs) m =
      (if wh.webhook_type == conversion_webhook then claim_crds wh wh.conversion_crds m else ok m)
      >>= λ m'. crd_to_deployment whs m'

  -- a definition, with the webhook that converts it
  unfoldable pub generate_crd :
      GeneratorContext k → Crd k → Option (Webhook k) → Result (RenderError k) (Crd k)
  generate_crd ctx crd none = ok crd
  generate_crd ctx crd (some cw) =
      if crd.preserve_unknown_fields
      then err (preserves_unknown_fields crd.name)
      else service_name cw.deployment_name >>= λ name. ok (record crd {
        conversion = some (
            by_webhook ctx.install_namespace name (get_or "/" cw.webhook_path) cw.container_port
              cw.admission_review_versions);
      })

  unfoldable pub generate_crds :
      GeneratorContext k → Map (Webhook k) → List (Crd k) → Result (RenderError k) (List (Object k))
  unfolding generate_crd
  generate_crds ctx m [] = ok []
  generate_crds ctx m (crd ∷ crds) =
      let rest = generate_crds ctx m crds in
      generate_crd ctx crd (get m crd.name) >>= λ cp. rest >>= λ objs. ok (crd_object cp ∷ objs)

  unfoldable pub bundle_crd_generator :
      RegistryV1 k → Options k → GeneratorContext k → Result (RenderError k) (GeneratorContext k)
  unfolding crd_to_deployment generate_crds
  bundle_crd_generator rv1 opts ctx = crd_to_deployment rv1.csv.webhook_definitions [] >>= λ m.
      generate_crds ctx m rv1.crds >>= λ objs. ok (add_objects k ctx objs)

  unfoldable pub additional_resources :
      GeneratorContext k → List (Unstructured k) → Result (RenderError k) (List (Object k))
  additional_resources ctx [] = ok []
  additional_resources ctx (res ∷ others) =
      let rest = additional_resources ctx others in
      let kind = k.is_supported res.kind in
      if kind.0
      then (rest >>= λ objs. ok (
          unstructured (if kind.1 then record res { namespace = ctx.install_namespace } else res)
          ∷ objs))
      else err (unsupported_resource res.name res.kind)

  unfoldable pub bundle_additional_resources_generator :
      RegistryV1 k → Options k → GeneratorContext k → Result (RenderError k) (GeneratorContext k)
  unfolding additional_resources
  bundle_additional_resources_generator rv1 opts ctx =
      additional_resources ctx rv1.others >>= λ objs. ok (add_objects k ctx objs)

  abbrev pub get_webhook_namespace_selector : List String → Option (List String)
  get_webhook_namespace_selector target_namespaces =
      if not (is_empty target_namespaces) && not (contains target_namespaces "")
      then some target_namespaces
      else none

  -- The configuration that both generators of webhooks fill in.
  unfoldable pub webhook_configuration :
      Options k → GeneratorContext k → Webhook k → Result (RenderError k) (WebhookConfiguration k)
  unfolding trim_dash
  webhook_configuration opts ctx wh = service_name wh.deployment_name >>= λ name. ok (record {
    name = trim_dash wh.generate_name;
    namespace = ctx.install_namespace;
    rules = wh.rules;
    settings = wh.settings;
    admission_review_versions = wh.admission_review_versions;
    service = record {
      namespace = ctx.install_namespace;
      name = name;
      path = wh.webhook_path;
      port = wh.container_port;
    };
    namespace_selector = get_webhook_namespace_selector opts.target_namespaces;
  })

  unfoldable pub webhook_configurations :
      Options k
      → GeneratorContext k
      → (WebhookConfiguration k → Object k)
      → List (Webhook k)
      → Result (RenderError k) (List (Object k))
  unfolding webhook_configuration
  webhook_configurations opts ctx wrap [] = ok []
  webhook_configurations opts ctx wrap (wh ∷ whs) =
      let rest = webhook_configurations opts ctx wrap whs in
      webhook_configuration opts ctx wh >>= λ cfg. rest >>= λ objs. ok (wrap cfg ∷ objs)

  unfoldable pub bundle_validating_webhook_resource_generator :
      RegistryV1 k → Options k → GeneratorContext k → Result (RenderError k) (GeneratorContext k)
  unfolding webhook_configurations
  bundle_validating_webhook_resource_generator rv1 opts ctx =
      webhook_configurations opts ctx validating_configuration (
        keep (λ (wh : Webhook k). wh.webhook_type == validating_webhook)
          rv1.csv.webhook_definitions)
      >>= λ objs. ok (add_objects k ctx objs)

  unfoldable pub bundle_mutating_webhook_resource_generator :
      RegistryV1 k → Options k → GeneratorContext k → Result (RenderError k) (GeneratorContext k)
  unfolding webhook_configurations
  bundle_mutating_webhook_resource_generator rv1 opts ctx =
      webhook_configurations opts ctx mutating_configuration
        (keep (λ (wh : Webhook k). wh.webhook_type == mutating_webhook) rv1.csv.webhook_definitions)
      >>= λ objs. ok (add_objects k ctx objs)
