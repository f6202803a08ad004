-- ===== src/Validators/Webhooks.antt =====
-- The checks of the webhooks' names.
use library_olm.Prelude.{
  ℕ, ◌+◌, String, List, [], ◌∷◌, map, Map, keys, get, put, get_or, sorted_entries, contains, insert,
  is_empty, length, nat_eq, sort_func, compare_strings, flat_map, if◌then◌else◌,
}
use library_olm.Registry.{Kube, RegistryV1, Webhook}
use library_olm.Validators.Errors.{ValidationError, duplicate_webhook, invalid_webhook_name}

-- `if _, ok := m[k]; !ok { m[k] = zero }`
unfoldable pub ensure {ℓ} : {A : Type ℓ} → Map A → String → A → Map A
ensure m k zero = if contains (keys m) k then m else put m k zero

-- The sum of the lengths of a map's values.
unfoldable pub total {ℓ} : {A : Type ℓ} → Map (List A) → ℕ
total [] = 0
total (e ∷ m) = length e.1 + total m

module _ (k : Kube) where
  -- The names seen and those seen twice, by type. One record for the two maps of the loop.
  pub record NamesByType : Type 0 where
    pub seen : Map (List String)
    pub duplicates : Map (List String)

  -- one round of the loop
  unfoldable pub add_webhook_name : Webhook k → NamesByType → NamesByType
  unfolding ensure
  add_webhook_name wh s =
      let seen = ensure s.seen wh.webhook_type [] in
      let names = get_or [] (get seen wh.webhook_type) in
      let duplicates = ensure s.duplicates wh.webhook_type [] in
      record {
        seen = put seen wh.webhook_type (insert names wh.generate_name);
        duplicates =
            if contains names wh.generate_name
            then put duplicates wh.webhook_type
                (insert (get_or [] (get duplicates wh.webhook_type)) wh.generate_name)
            else s.duplicates;
      }

  unfoldable pub names_by_type : List (Webhook k) → NamesByType → NamesByType
  unfolding add_webhook_name
  names_by_type [] s = s
  names_by_type (wh ∷ whs) s = names_by_type whs (add_webhook_name wh s)

  unfoldable pub check_webhook_name_uniqueness : RegistryV1 k → List ValidationError
  unfolding names_by_type total
  check_webhook_name_uniqueness rv1 =
      let s = names_by_type rv1.csv.webhook_definitions (record { seen = []; duplicates = [] }) in
      if nat_eq (total s.duplicates) 0
      then []
      else flat_map
          (λ (e : String × List String).
            map (λ name. duplicate_webhook name e.0) (sort_func compare_strings e.1))
          (sorted_entries s.duplicates)

  -- the loop of `CheckWebhookNameIsDNS1123SubDomain`
  unfoldable pub invalid_webhooks :
      List (Webhook k) → Map (Map (List String)) → Map (Map (List String))
  unfolding ensure
  invalid_webhooks [] m = m
  invalid_webhooks (wh ∷ whs) m =
      let m' = ensure m wh.webhook_type [] in
      let errs = k.is_dns1123_subdomain wh.generate_name in
      let names = get_or [] (get m' wh.webhook_type) in
      invalid_webhooks whs (
        if is_empty errs
        then m'
        else put m' wh.webhook_type (put names wh.generate_name (sort_func compare_strings errs)))

  unfoldable pub check_webhook_name_is_dns1123_subdomain : RegistryV1 k → List ValidationError
  unfolding invalid_webhooks total
  check_webhook_name_is_dns1123_subdomain rv1 =
      let m = invalid_webhooks rv1.csv.webhook_definitions [] in
      if nat_eq (total m) 0
      then []
      else flat_map
          (λ (e : String × Map (List String)).
            map (λ (n : String × List String). invalid_webhook_name e.0 n.0 n.1)
              (sorted_entries e.1))
          (sorted_entries m)
