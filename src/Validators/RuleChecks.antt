-- ===== src/Validators/RuleChecks.antt =====
-- The check of the webhooks' rules reports nothing exactly where every rule is allowed.
use library_olm.Prelude.{
  String, ◌≡◌, refl, ◌∙◌, Bool, ◌&&◌, ◌||◌, not, List, [], ◌∷◌, contains, is_empty,
  is_empty-flat_map, all, all-congr, flat_map, ◌==◌, arith,
}
use library_olm.Registry.{Kube, RegistryV1, Webhook, WebhookRule}
use library_olm.Validators.References.{is_conversion}
use library_olm.Validators.Rules.{
  forbidden_webhook_rule_api_groups, is_forbidden_resource, forbidden_resources, check_api_group,
  check_rules, check_webhook_rules,
}

is_empty-forbidden_resources :
    (name group : String) (resources : List String)
    → is_empty (forbidden_resources name group resources)
      ≡ all (λ resource. not (is_forbidden_resource resource)) resources
unfolding forbidden_resources
is_empty-forbidden_resources name group [] = refl
is_empty-forbidden_resources name group (resource ∷ resources) =
    ground (arith, is_empty-forbidden_resources name group resources)

module _ (k : Kube) where
  -- The API group may stand in the rule.
  abbrev pub is_allowed : WebhookRule k → String → Bool
  is_allowed rule group =
      not (contains forbidden_webhook_rule_api_groups group)
      && (not (group == "admissionregistration.k8s.io")
          || all (λ resource. not (is_forbidden_resource resource)) rule.resources)

  is_empty-check_api_group :
      (name : String) (rule : WebhookRule k) (group : String)
      → is_empty (check_api_group k name rule group) ≡ is_allowed rule group
  unfolding check_api_group
  is_empty-check_api_group name rule group =
      ground (arith, is_empty-forbidden_resources name group rule.resources)

  abbrev pub has_allowed_rules : Webhook k → Bool
  has_allowed_rules w =
      is_conversion k w
      || all (λ (rule : WebhookRule k). all (is_allowed rule) rule.api_groups) w.rules

  is_empty-check_rules : (w : Webhook k) → is_empty (check_rules k w) ≡ has_allowed_rules w
  unfolding check_rules
  is_empty-check_rules w = ground (arith, each_rule w.rules)
    where
      each_rule :
          (rules : List (WebhookRule k))
          → is_empty (
              flat_map
                (λ (rule : WebhookRule k).
                  flat_map (check_api_group k w.generate_name rule) rule.api_groups)
                rules)
            ≡ all (λ (rule : WebhookRule k). all (is_allowed rule) rule.api_groups) rules
      each_rule rules =
          is_empty-flat_map _ rules
          ∙ all-congr _ _ rules (λ rule.
            is_empty-flat_map (check_api_group k w.generate_name rule) rule.api_groups
            ∙ all-congr _ _ rule.api_groups (is_empty-check_api_group w.generate_name rule))

  pub check_webhook_rules_lem :
      (rv1 : RegistryV1 k)
      → is_empty (check_webhook_rules k rv1) ≡ all has_allowed_rules rv1.csv.webhook_definitions
  unfolding check_webhook_rules
  check_webhook_rules_lem rv1 =
      is_empty-flat_map (check_rules k) rv1.csv.webhook_definitions
      ∙ all-congr _ _ rv1.csv.webhook_definitions is_empty-check_rules
