-- ===== src/Validators/References.antt =====
-- The checks of what the webhooks refer to.
use library_olm.Prelude.{
  Ordering, String, Bool, not, ◌&&◌, List, [], ◌∷◌, ◌++◌, map, Map, get, put, get_or, delete,
  sorted_entries, contains, is_empty, length, nat_eq, keep, sort_func, compare_strings, then_by,
  flat_map, if◌then◌else◌, ◌==◌,
}
use library_olm.Registry.{
  Kube, RegistryV1, Webhook, all_namespaces, conversion_webhook, supported_install_modes,
}
use library_olm.Validators.Errors.{
  ValidationError, unsupported_conversion_webhook, missing_deployment, unowned_crd, shared_crd,
}
use library_olm.Validators.Names.{deployment_names}
use library_olm.Validators.Crds.{insert_all}
use library_olm.Validators.Webhooks.{total}

-- `m[k] = append(m[k], a)`
unfoldable pub append_at {ℓ} : {A : Type ℓ} → Map (List A) → String → A → Map (List A)
append_at m k a = put m k (get_or [] (get m k) ++ (a ∷ []))

-- the loop of `delete(m, name)`
unfoldable pub delete_all {ℓ} : {A : Type ℓ} → Map A → List String → Map A
delete_all m [] = m
delete_all m (n ∷ ns) = delete_all (delete m n) ns

-- the inner loop, over the definitions of one webhook
unfoldable pub unowned_crds : List String → String → List String → List ValidationError
unowned_crds owned name [] = []
unowned_crds owned name (crd ∷ crds) =
    (if contains owned crd then [] else unowned_crd name crd ∷ []) ++ unowned_crds owned name crds

-- the inner loop, over the definitions of one webhook
unfoldable pub add_references : String → List String → Map (List String) → Map (List String)
unfolding append_at
add_references name [] m = m
add_references name (crd ∷ crds) m = add_references name crds (append_at m crd name)

module _ (k : Kube) where
  abbrev pub is_conversion : Webhook k → Bool
  is_conversion wh = wh.webhook_type == conversion_webhook

  abbrev pub conversion_webhooks : RegistryV1 k → List (Webhook k)
  conversion_webhooks rv1 = keep is_conversion rv1.csv.webhook_definitions

  unfoldable pub check_conversion_webhook_support : RegistryV1 k → List ValidationError
  unfolding supported_install_modes
  check_conversion_webhook_support rv1 =
      let names = map (λ (wh : Webhook k). wh.generate_name) (conversion_webhooks rv1) in
      let modes = supported_install_modes k rv1 in
      if is_empty names
      then []
      else if nat_eq (length modes) 1 && contains modes all_namespaces
      then []
      else map (λ name. unsupported_conversion_webhook name (sort_func compare_strings modes)) names

  unfoldable pub webhooks_by_deployment :
      List (Webhook k) → Map (List (Webhook k)) → Map (List (Webhook k))
  unfolding append_at
  webhooks_by_deployment [] m = m
  webhooks_by_deployment (wh ∷ whs) m =
      webhooks_by_deployment whs (append_at m wh.deployment_name wh)

  abbrev pub by_type_and_name : Webhook k → Webhook k → Ordering
  by_type_and_name a b =
      then_by (compare_strings a.webhook_type b.webhook_type)
        (compare_strings a.generate_name b.generate_name)

  unfoldable pub check_webhook_deployment_referential_integrity :
      RegistryV1 k → List ValidationError
  unfolding webhooks_by_deployment delete_all total
  check_webhook_deployment_referential_integrity rv1 =
      let m =
        delete_all (webhooks_by_deployment rv1.csv.webhook_definitions [])
          (deployment_names k rv1) in
      if nat_eq (total m) 0
      then []
      else flat_map
          (λ (e : String × List (Webhook k)).
            map
              (λ (wh : Webhook k).
                missing_deployment wh.webhook_type wh.generate_name wh.deployment_name)
              (sort_func by_type_and_name e.1))
          (sorted_entries m)

  unfoldable pub check_conversion_webhooks_reference_owned_crds :
      RegistryV1 k → List ValidationError
  unfolding insert_all unowned_crds
  check_conversion_webhooks_reference_owned_crds rv1 =
      let whs = conversion_webhooks rv1 in
      let owned = insert_all [] rv1.csv.owned in
      if is_empty whs
      then []
      else flat_map
          (λ (wh : Webhook k).
            unowned_crds owned wh.generate_name (sort_func compare_strings wh.conversion_crds))
          (sort_func (λ (a b : Webhook k). compare_strings a.generate_name b.generate_name) whs)

  unfoldable pub crd_to_webhooks : List (Webhook k) → Map (List String) → Map (List String)
  unfolding add_references
  crd_to_webhooks [] m = m
  crd_to_webhooks (wh ∷ whs) m =
      crd_to_webhooks whs
        (if is_conversion wh then add_references wh.generate_name wh.conversion_crds m else m)

  unfoldable pub check_conversion_webhook_crd_reference_uniqueness :
      RegistryV1 k → List ValidationError
  unfolding crd_to_webhooks
  check_conversion_webhook_crd_reference_uniqueness rv1 =
      map (λ (e : String × List String). shared_crd (sort_func compare_strings e.1) e.0)
        (sorted_entries (
          keep (λ (e : String × List String). not (nat_eq (length e.1) 1))
            (crd_to_webhooks rv1.csv.webhook_definitions [])))
