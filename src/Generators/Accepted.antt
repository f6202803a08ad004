-- ===== src/Generators/Accepted.antt =====
-- What validation excludes is not found by the generators.
use library_olm.Prelude.{
  String, ◌≡◌, refl, ◌∙◌, true, false, ◌&&◌, ◌||◌, not, List, [], ◌∷◌, ◌++◌, Map, keys, put,
  contains-keys-put, contains, contains-append, all, all-append, distinct, keep, flat_map, ok,
  if◌then◌else◌, ◌==◌, arith, eq_iff, Bool-cases, inl, inr,
}
use library_olm.Registry.{Kube, RegistryV1, Webhook, Unstructured}
use library_olm.Validators.{is_conversion}
use library_olm.Validators.ReferenceChecks.{converted, all_absent}
use library_olm.Validators.Validity.{IsValid}
use library_olm.Generators.{
  Object, unstructured, add_objects, Options, GeneratorContext, claim_crds, crd_to_deployment,
  additional_resources, bundle_additional_resources_generator,
}

distinct-append :
    (xs ys : List String)
    → distinct (xs ++ ys) ≡ (distinct xs && (distinct ys && all (λ y. not (contains xs y)) ys))
unfolding contains
distinct-append [] ys = ground (arith, none_in ys)
  where
    none_in : (zs : List String) → all (λ y. true) zs ≡ true
    none_in [] = refl
    none_in (z ∷ zs) = none_in zs
distinct-append (x ∷ xs) ys =
    ground (arith, contains-append xs ys x, distinct-append xs ys, apart ys)
  where
    apart :
        (zs : List String)
        → all (λ y. not (x == y || contains xs y)) zs
          ≡ (not (contains zs x) && all (λ y. not (contains xs y)) zs)
    apart [] = refl
    apart (z ∷ zs) = ground (arith, apart zs, eq_iff x z, eq_iff z x)

module _ (k : Kube) where
  -- The keys of a map are told by those of another and by a list.
  IsClaimed : List String → Map (Webhook k) → Map (Webhook k) → Type 0
  IsClaimed crds m m' =
      (b : String) → contains (keys m') b ≡ (contains crds b || contains (keys m) b)

  claim_crds-total :
      (wh : Webhook k) (crds : List String) (m : Map (Webhook k))
      → distinct crds ≡ true
      → all (λ c. not (contains (keys m) c)) crds ≡ true
      → (m' : Map (Webhook k)) × (claim_crds k wh crds m ≡ ok m') × IsClaimed crds m m'
  unfolding claim_crds IsClaimed contains
  claim_crds-total wh [] m d a = (m, refl, λ b. refl)
  claim_crds-total wh (c ∷ cs) m d a =
      let fresh : contains (keys m) c ≡ false = ground arith in
      let (m', e, claimed) = claim_crds-total wh cs (put m c wh) (ground arith) (
        all_absent cs (keys m) (keys (put m c wh)) c (contains-keys-put m c wh) ∙ (ground arith)) in
      (m', rw fresh e, λ b. claimed b ∙ (ground (arith, contains-keys-put m c wh b)))

  all-claimed :
      (rest crds : List String) (m m' : Map (Webhook k))
      → IsClaimed crds m m'
      → all (λ c. not (contains (keys m') c)) rest
        ≡ (all (λ c. not (contains crds c)) rest && all (λ c. not (contains (keys m) c)) rest)
  unfolding IsClaimed
  all-claimed [] crds m m' h = refl
  all-claimed (c ∷ rest) crds m m' h = ground (arith, h c, all-claimed rest crds m m' h)

  crd_to_deployment-total :
      (ws : List (Webhook k)) (m : Map (Webhook k))
      → distinct (converted k (keep (is_conversion k) ws)) ≡ true
      → all (λ c. not (contains (keys m) c)) (converted k (keep (is_conversion k) ws)) ≡ true
      → (m' : Map (Webhook k)) × (crd_to_deployment k ws m ≡ ok m')
  unfolding crd_to_deployment keep flat_map
  crd_to_deployment-total [] m d a = (m, refl)
  crd_to_deployment-total (w ∷ ws) m d a = elim (Bool-cases (is_conversion k w)) [
    | inl conversion ↦
        let rest = converted k (keep (is_conversion k) ws) in
        let d' : distinct (w.conversion_crds ++ rest) ≡ true = rw conversion at d in
        let a' : all (λ c. not (contains (keys m) c)) (w.conversion_crds ++ rest) ≡ true =
          rw conversion at a in
        let both = distinct-append w.conversion_crds rest in
        let split = all-append (λ c. not (contains (keys m) c)) w.conversion_crds rest in
        let (m1, e1, claimed) =
          claim_crds-total w w.conversion_crds m (ground (arith, d', both))
            (ground (arith, a', split)) in
        let (m2, e2) = crd_to_deployment-total ws m1 (ground (arith, d', both)) (
          all-claimed rest w.conversion_crds m m1 claimed
          ∙ (ground (arith, a', split, d', both))) in
        (m2, rw (conversion, e1) e2)
    | inr admission ↦
        let (m2, e2) = crd_to_deployment-total ws m (rw admission at d) (rw admission at a) in
        (m2, rw admission e2)
  ]

  additional_resources-total :
      (ctx : GeneratorContext k) (others : List (Unstructured k))
      → all (λ (obj : Unstructured k). (k.is_supported obj.kind).0) others ≡ true
      → (objs : List (Object k)) × (additional_resources k ctx others ≡ ok objs)
  unfolding additional_resources
  additional_resources-total ctx [] h = ([], refl)
  additional_resources-total ctx (obj ∷ others) h =
      let supported : (k.is_supported obj.kind).0 ≡ true = ground arith in
      let (objs, e) = additional_resources-total ctx others (ground arith) in
      (
        unstructured (
              if (k.is_supported obj.kind).1
              then record obj { namespace = ctx.install_namespace }
              else obj)
            ∷ objs,
        rw (supported, e) refl,
      )

  none_absent : (cs : List String) → all (λ c. not (contains [] c)) cs ≡ true
  unfolding contains
  none_absent [] = refl
  none_absent (c ∷ cs) = none_absent cs

  -- On a valid bundle the generators do not meet what validation excludes:
  -- `BundleAdditionalResourcesGenerator` succeeds, and `BundleCRDGenerator` finds no definition that
  -- several conversion webhooks refer to.
  pub generators_accept_valid :
      (rv1 : RegistryV1 k)
      → IsValid k rv1
      → ((opts : Options k) (ctx : GeneratorContext k)
          → (ctx' : GeneratorContext k) × (bundle_additional_resources_generator k rv1 opts ctx
              ≡ ok ctx'))
        × ((m : Map (Webhook k)) × (crd_to_deployment k rv1.csv.webhook_definitions [] ≡ ok m))
  unfolding bundle_additional_resources_generator
  generators_accept_valid rv1 valid = (
    λ opts ctx.
        let (objs, e) = additional_resources-total ctx rv1.others valid.objects_supported in
        (add_objects k ctx objs, rw e refl),
    crd_to_deployment-total rv1.csv.webhook_definitions [] valid.converted_once (none_absent _),
  )
