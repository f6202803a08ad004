-- ===== src/Generators/Rendering.antt =====
-- What `Render` requires of a bundle and how its result begins.
use library_olm.Prelude.{
  String, ◌≡◌, refl, sym, ap, true, none, some, List, [], ◌∷◌, ◌++◌, Result, ok, err, ◌>>=◌,
  >>=-eq-ok, All, is_empty, Bool-cases, inl, inr,
}
use mathlib.Core.Path.{subst}
use library_olm.Registry.{Kube, Namespace, RegistryV1}
use library_olm.Validators.{ValidationError, bundle_validator, validate}
use library_olm.Validators.Validity.{IsValid, validate_iff}
use library_olm.Generators.{
  Object, namespace_object, Options, GeneratorContext, RenderError, Runtime, ResourceGenerator,
  add_objects, generate_resources, resource_generators, RenderOption, apply,
  default_unique_name_generator, default_target_namespaces_for_bundle, check_bundle, check_options,
  render, derive_namespace, bundle_namespace_generator, bundle_csv_service_account_generator,
  bundle_csv_permissions_generator, bundle_csv_cluster_permissions_generator, bundle_crd_generator,
  bundle_additional_resources_generator, bundle_csv_deployment_generator,
  bundle_validating_webhook_resource_generator, bundle_mutating_webhook_resource_generator,
  bundle_deployment_service_resource_generator, cert_provider_resource_generator, certify,
  certify_all, CertTargets, cert_targets, is_all_namespaces_mode, provider_objects,
  crd_to_deployment, generate_crds,
}
use library_olm.Generators.InstallNamespace.{IsOrigin, bundle_namespace_generator_lem}

module _ (k : Kube) where
  -- The objects begin with a namespace.
  pub BeginsWith : Namespace → List (Object k) → Type 0
  BeginsWith ns objs = (rest : List (Object k)) × (objs ≡ namespace_object ns ∷ rest)

  module _ (rv1 : RegistryV1 k) (opts : Options k) (ns : Namespace) where
    -- The generator leaves the namespace in front.
    Keeps : ResourceGenerator k → Type 0
    Keeps g =
        (ctx ctx' : GeneratorContext k)
        → BeginsWith ns ctx.objects
        → g rv1 opts ctx ≡ ok ctx'
        → BeginsWith ns ctx'.objects

    begins-append :
        (objs more : List (Object k)) → BeginsWith ns objs → BeginsWith ns (objs ++ more)
    unfolding BeginsWith
    begins-append objs more (rest, e) = (rest ++ more, ap (λ os. os ++ more) e)

    -- a generator that appends what it makes
    adds :
        (made : Result (RenderError k) (List (Object k))) (ctx ctx' : GeneratorContext k)
        → BeginsWith ns ctx.objects
        → (made >>= λ objs. ok (add_objects k ctx objs)) ≡ ok ctx'
        → BeginsWith ns ctx'.objects
    adds (ok objs) ctx ctx' b e =
        let same : add_objects k ctx objs ≡ ctx' = cc in
        rw (← same) (begins-append ctx.objects objs b)
    adds (err x) ctx ctx' b e = cc

    Keeps-permissions : Keeps (bundle_csv_permissions_generator k)
    unfolding Keeps bundle_csv_permissions_generator
    Keeps-permissions ctx ctx' b e =
        elim (Bool-cases (is_all_namespaces_mode opts.target_namespaces)) [
          | inl all_mode ↦ let same : ctx ≡ ctx' = ok_injective (rw all_mode at e) in rw (← same) b
          | inr other ↦ adds _ ctx ctx' b (rw other at e)
        ]
      where
        ok_injective :
            {a c : GeneratorContext k}
            → ◌≡◌ {A = Result (RenderError k) (GeneratorContext k)} (ok a) (ok c)
            → a ≡ c
        ok_injective h = cc

    Keeps-crds : Keeps (bundle_crd_generator k)
    unfolding Keeps bundle_crd_generator
    Keeps-crds ctx ctx' b e =
        let (m, found, rest) =
          >>=-eq-ok (crd_to_deployment k rv1.csv.webhook_definitions [])
            (λ m. generate_crds k ctx m rv1.crds >>= λ objs. ok (add_objects k ctx objs)) e in
        adds (generate_crds k ctx m rv1.crds) ctx ctx' b rest

    certify_all-begins :
        (ctx : GeneratorContext k) (t : CertTargets k) (objs objs' : List (Object k))
        → certify_all k opts ctx t (namespace_object ns ∷ objs) ≡ ok objs'
        → BeginsWith ns objs'
    unfolding BeginsWith certify_all certify
    certify_all-begins ctx t objs objs' e =
        let (rest, made, same) =
          >>=-eq-ok (certify_all k opts ctx t objs) (λ rest. ok (namespace_object ns ∷ rest)) e in
        let equal : namespace_object ns ∷ rest ≡ objs' = cc in (rest, sym equal)

    certified :
        (ctx : GeneratorContext k) (t : CertTargets k) (objs objs' : List (Object k))
        → BeginsWith ns objs
        → certify_all k opts ctx t objs ≡ ok objs'
        → BeginsWith ns objs'
    unfolding BeginsWith
    certified ctx t objs objs' (rest, b) e = certify_all-begins ctx t rest objs' (rw b at e)

    Keeps-certificates :
        (list_names : List String → List String)
        → Keeps (cert_provider_resource_generator k list_names)
    unfolding Keeps cert_provider_resource_generator
    Keeps-certificates list_names ctx ctx' b e =
        let (t, found, e1) =
          >>=-eq-ok (cert_targets k ctx rv1.csv.webhook_definitions no_targets)
            (λ t. certify_all k opts ctx t ctx.objects >>= λ objs.
              provider_objects k opts ctx (list_names t.deployments) >>= λ more.
              ok (record ctx { objects = objs ++ more }))
            e in
        let (objs, done, e2) =
          >>=-eq-ok (certify_all k opts ctx t ctx.objects)
            (λ objs. provider_objects k opts ctx (list_names t.deployments) >>= λ more.
              ok (record ctx { objects = objs ++ more }))
            e1 in
        let (more, given, e3) =
          >>=-eq-ok (provider_objects k opts ctx (list_names t.deployments))
            (λ more. ok (record ctx { objects = objs ++ more })) e2 in
        finish objs more (certified ctx t ctx.objects objs b done) e3
      where
        no_targets : CertTargets k
        no_targets = record {
          deployments = [];
          conversion_crds = [];
          validating = [];
          mutating = [];
          services = [];
        }

        finish :
            (objs more : List (Object k))
            → BeginsWith ns objs
            → ◌≡◌ {A = Result (RenderError k) (GeneratorContext k)}
                (ok (record ctx { objects = objs ++ more }))
                (ok ctx')
            → BeginsWith ns ctx'.objects
        finish objs more b' e' =
            let same : record ctx { objects = objs ++ more } ≡ ctx' = cc in
            rw (← same) (begins-append objs more b')

    Keeps-All :
        (gs : List (ResourceGenerator k)) (ctx ctx' : GeneratorContext k)
        → All Keeps gs
        → BeginsWith ns ctx.objects
        → generate_resources k gs rv1 opts ctx ≡ ok ctx'
        → BeginsWith ns ctx'.objects
    unfolding generate_resources Keeps
    Keeps-All [] ctx ctx' h b e = let same : ctx ≡ ctx' = cc in rw (← same) b
    Keeps-All (g ∷ gs) ctx ctx' h b e =
        let (mid, made, rest) =
          >>=-eq-ok (g rv1 opts ctx) (λ c. generate_resources k gs rv1 opts c) e in
        Keeps-All gs mid ctx' h.1 (h.0 ctx mid b made) rest

    Keeps-rest :
        (rt : Runtime)
        → All Keeps (
            bundle_csv_service_account_generator k rt.list_names
            ∷ bundle_csv_permissions_generator k
            ∷ bundle_csv_cluster_permissions_generator k
            ∷ bundle_crd_generator k
            ∷ bundle_additional_resources_generator k
            ∷ bundle_csv_deployment_generator k
            ∷ bundle_validating_webhook_resource_generator k
            ∷ bundle_mutating_webhook_resource_generator k
            ∷ bundle_deployment_service_resource_generator k rt.list_ports
            ∷ cert_provider_resource_generator k rt.list_names
            ∷ [])
    unfolding Keeps bundle_csv_service_account_generator bundle_csv_cluster_permissions_generator
        bundle_additional_resources_generator bundle_csv_deployment_generator
        bundle_validating_webhook_resource_generator bundle_mutating_webhook_resource_generator
        bundle_deployment_service_resource_generator
    Keeps-rest rt = (
      λ ctx ctx' b e. adds (ok _) ctx ctx' b e,
      (
        Keeps-permissions,
        (
          λ ctx ctx' b e. adds _ ctx ctx' b e,
          (
            Keeps-crds,
            (
              λ ctx ctx' b e. adds _ ctx ctx' b e,
              (
                λ ctx ctx' b e. adds (ok _) ctx ctx' b e,
                (
                  λ ctx ctx' b e. adds _ ctx ctx' b e,
                  (
                    λ ctx ctx' b e. adds _ ctx ctx' b e,
                    (λ ctx ctx' b e. adds _ ctx ctx' b e, (Keeps-certificates rt.list_names, tt)),
                  ),
                ),
              ),
            ),
          ),
        ),
      ),
    )

  -- The options that `Render` starts from.
  abbrev pub default_options : Runtime → RegistryV1 k → Options k
  default_options rt rv1 = record {
    target_namespaces = default_target_namespaces_for_bundle k rv1;
    unique_name_generator = some (default_unique_name_generator k rt);
    certificate_provider = none;
    deployment_config = none;
    self_managed_install_namespace = none;
  }

  checked : (es : List ValidationError) (u : Unit) → check_bundle k es ≡ ok u → es ≡ []
  checked [] u h = refl
  checked (e ∷ es) u h = cc

  abbrev start : GeneratorContext k
  start = record { install_namespace = ""; objects = [] }

  abbrev run : Runtime → RegistryV1 k → Options k → Result (RenderError k) (List (Object k))
  run rt rv1 o =
      generate_resources k (resource_generators k rt) rv1 o start >>= λ ctx. ok ctx.objects

  generate_first :
      (g : ResourceGenerator k) (gs : List (ResourceGenerator k)) (rv1 : RegistryV1 k)
      (o : Options k) (ctx ctx' : GeneratorContext k)
      → generate_resources k (g ∷ gs) rv1 o ctx ≡ ok ctx'
      → (mid : GeneratorContext k) × (g rv1 o ctx ≡ ok mid)
        × (generate_resources k gs rv1 o mid ≡ ok ctx')
  unfolding generate_resources
  generate_first g gs rv1 o ctx ctx' h =
      >>=-eq-ok (g rv1 o ctx) (λ c. generate_resources k gs rv1 o c) h

  begins :
      (rt : Runtime) (rv1 : RegistryV1 k) (o : Options k) (ctx' : GeneratorContext k)
      (objs : List (Object k))
      → ctx'.objects ≡ objs
      → generate_resources k (resource_generators k rt) rv1 o start ≡ ok ctx'
      → o.self_managed_install_namespace ≡ none
      → (ns : Namespace) × (derive_namespace k rv1 ≡ ok ns)
        × (is_empty (k.is_dns1123_label ns.name) ≡ true)
        × BeginsWith ns objs
  begins rt rv1 o ctx' objs same generated unmanaged =
      let (mid, first, tail) =
        generate_first (bundle_namespace_generator k) _ rv1 o start ctx' generated in
      let (valid, origin, allowed) = bundle_namespace_generator_lem k rv1 o start mid first in
      let (ns, derived, named, emitted) =
        subst (λ managed. IsOrigin k rv1 managed start mid) unmanaged origin in
      let front : BeginsWith ns mid.objects = unfold BeginsWith in ([], emitted) in
      (
        ns,
        derived,
        rw (← named) valid,
        rw (← same) (Keeps-All rv1 o ns _ mid ctx' (Keeps-rest rv1 o ns rt) front tail),
      )

  -- Where `Render` succeeds with the checks and generators of registry+v1, the bundle is valid, and
  -- unless the caller manages the install namespace the manifests begin with the namespace that is
  -- derived from the bundle, whose name is a valid one.
  pub render_lem :
      (rt : Runtime) (rv1 : RegistryV1 k) (opts : List (RenderOption k)) (objs : List (Object k))
      → render k rt (bundle_validator k) (resource_generators k rt) rv1 opts ≡ ok objs
      → IsValid k rv1
        × ((apply k opts (default_options rt rv1)).self_managed_install_namespace ≡ none
            → (ns : Namespace) × (derive_namespace k rv1 ≡ ok ns)
              × (is_empty (k.is_dns1123_label ns.name) ≡ true)
              × BeginsWith ns objs)
  unfolding render
  render_lem rt rv1 opts objs h =
      let o = apply k opts (default_options rt rv1) in
      let (u, valid, h1) =
        >>=-eq-ok (check_bundle k (validate k (bundle_validator k) rv1))
          (λ _. check_options k o >>= λ _. run rt rv1 o) h in
      let (u', known, h2) = >>=-eq-ok (check_options k o) (λ _. run rt rv1 o) h1 in
      let (ctx', generated, h3) =
        >>=-eq-ok (generate_resources k (resource_generators k rt) rv1 o start)
          (λ ctx. ok ctx.objects) h2 in
      let same : ctx'.objects ≡ objs = cc in
      (
        (validate_iff k rv1).0 (checked _ u valid),
        λ unmanaged. begins rt rv1 o ctx' objs same generated unmanaged,
      )
