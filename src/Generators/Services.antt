-- ===== src/Generators/Services.antt =====
-- internal/render/registryv1/generators/generators.go: the services of webhooks.
use Prim.Native.Nat.{◌/◌, ◌%◌}
use Prim.Native.String
use Prim.Native.String.{slice}
use library_olm.Prelude.{
  ℕ, zero, suc, ◌+◌, String, Bool, false, ◌&&◌, Option, none, some, List, [], ◌∷◌, ◌++◌, Map, get,
  put, get_or, Result, ok, ◌>>=◌, ℤ, compare_ℤ, is_eq, is_lt, Ordering, any, then_by, ltb,
  sort_func, if◌then◌else◌, ◌==◌,
}
use library_olm.Registry.{
  Kube, RegistryV1, Webhook, IntOrString, int_port, named_port, StrategyDeployment,
}
use library_olm.Generators.Permissions.{add_objects}
use library_olm.Generators.Resources.{service_name}
use library_olm.Generators.Objects.{
  Object, service, ServicePort, Options, GeneratorContext, RenderError,
}

-- `strconv.Itoa`: an int32 has at most ten digits.
unfoldable pub digits : ℕ → ℕ → String
digits zero n = ""
digits (suc fuel) n =
    let front = digits fuel (n / 10) in
    let last = slice "0123456789" (n % 10) (n % 10 + 1) in
    if ltb n 10 then last else String.◌++◌ front last

unfoldable pub itoa : ℤ → String
unfolding digits
itoa (ℤ.pos n) = digits 10 n
itoa (ℤ.negsuc n) = String.◌++◌ "-" (digits 10 (suc n))

abbrev pub same_port : IntOrString → IntOrString → Bool
same_port (int_port a) (int_port b) = is_eq (compare_ℤ a b)
same_port (named_port a) (named_port b) = a == b
same_port _ _ = false

-- `==` on two `corev1.ServicePort`
abbrev pub same_service_port : ServicePort → ServicePort → Bool
same_service_port a b =
    a.name == b.name && (is_eq (compare_ℤ a.port b.port) && same_port a.target_port b.target_port)

-- `Insert` into a `sets.Set[corev1.ServicePort]`
unfoldable pub insert_port : List ServicePort → ServicePort → List ServicePort
insert_port ports p = if any (λ q. same_service_port q p) ports then ports else ports ++ (p ∷ [])

module _ (k : Kube) where
  unfoldable pub get_webhook_service_port : Webhook k → ServicePort
  unfolding itoa
  get_webhook_service_port wh =
      let port =
        if is_lt (compare_ℤ (ℤ.pos 0) wh.container_port) then wh.container_port else ℤ.pos 443 in
      record { name = itoa port; port = port; target_port = get_or (int_port port) wh.target_port }

  unfoldable pub ports_by_deployment :
      List (Webhook k) → Map (List ServicePort) → Map (List ServicePort)
  unfolding insert_port get_webhook_service_port
  ports_by_deployment [] m = m
  ports_by_deployment (wh ∷ whs) m = ports_by_deployment whs (
      put m wh.deployment_name
        (insert_port (get_or [] (get m wh.deployment_name)) (get_webhook_service_port wh)))

  abbrev pub int_value : IntOrString → ℤ
  int_value (int_port n) = n
  int_value (named_port s) = k.named_port_value s

  abbrev pub by_port : ServicePort → ServicePort → Ordering
  by_port a b =
      then_by (compare_ℤ a.port b.port)
        (compare_ℤ (int_value a.target_port) (int_value b.target_port))

  -- A deployment that no webhook names has no service.
  abbrev pub service_for :
      (List ServicePort → List ServicePort)
      → GeneratorContext k
      → StrategyDeployment k
      → Option (List ServicePort)
      → Result (RenderError k) (List (Object k))
  service_for unsorted_list ctx dep none = ok []
  service_for unsorted_list ctx dep (some ports) = service_name k dep.name >>= λ name. ok (
      service name ctx.install_namespace (sort_func by_port (unsorted_list ports))
        dep.spec.match_labels
      ∷ [])

  unfoldable pub deployment_services :
      (List ServicePort → List ServicePort)
      → GeneratorContext k
      → Map (List ServicePort)
      → List (StrategyDeployment k)
      → Result (RenderError k) (List (Object k))
  deployment_services unsorted_list ctx m [] = ok []
  deployment_services unsorted_list ctx m (dep ∷ deps) =
      let rest = deployment_services unsorted_list ctx m deps in
      service_for unsorted_list ctx dep (get m dep.name) >>= λ objs.
      rest >>= λ more. ok (objs ++ more)

  -- `unsorted_list` lists a set, in an order that Go does not fix.
  unfoldable pub bundle_deployment_service_resource_generator :
      (List ServicePort → List ServicePort)
      → RegistryV1 k
      → Options k
      → GeneratorContext k
      → Result (RenderError k) (GeneratorContext k)
  unfolding ports_by_deployment deployment_services
  bundle_deployment_service_resource_generator unsorted_list rv1 opts ctx =
      deployment_services unsorted_list ctx (ports_by_deployment rv1.csv.webhook_definitions [])
        rv1.csv.deployment_specs
      >>= λ objs. ok (add_objects k ctx objs)
