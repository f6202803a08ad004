-- ===== src/Validators/Validity.antt =====
-- What a valid registry+v1 bundle is, and that `BundleValidator` accepts exactly the valid ones.
use library_olm.Prelude.{
  ◌≡◌, ◌≢◌, sym, ◌∙◌, ◌↔◌, true, ◌&&◌, ◌||◌, [], contains, is_empty, is_empty_iff,
  is_empty-flat_map, all, distinct, arith, eq_iff,
}
use library_olm.Registry.{Kube, RegistryV1, Webhook, Unstructured, all_namespaces}
use library_olm.Validators.Names.{deployment_names}
use library_olm.Validators.Crds.{crd_names}
use library_olm.Validators.References.{conversion_webhooks}
use library_olm.Validators.Validate.{bundle_validator, validate}
use library_olm.Validators.NameChecks.{
  check_deployment_spec_uniqueness_lem, check_deployment_name_lem,
  check_crd_resource_uniqueness_lem, check_owned_crd_existence_lem, check_package_name_lem,
  check_object_support_lem,
}
use library_olm.Validators.WebhookChecks.{
  webhooks_distinct, check_webhook_name_uniqueness_lem, check_webhook_name_lem,
}
use library_olm.Validators.ReferenceChecks.{
  converted, check_webhook_deployment_lem, check_conversion_webhook_crd_lem,
  check_conversion_webhooks_owned_lem,
}
use library_olm.Validators.SupportChecks.{
  supports, supports_only, check_conversion_webhook_support_lem,
}
use library_olm.Validators.RuleChecks.{has_allowed_rules, check_webhook_rules_lem}

module _ (k : Kube) where
  pub record IsValid (rv1 : RegistryV1 k) : Type 0 where
    -- names: the deployments' and the definitions' are distinct, and so are the webhooks' of a type
    pub package_named : rv1.package_name ≢ ""
    pub deployments_distinct : distinct (deployment_names k rv1) ≡ true
    pub deployments_named :
        all (λ n. is_empty (k.is_dns1123_subdomain n)) (deployment_names k rv1) ≡ true
    pub crds_distinct : distinct (crd_names k rv1) ≡ true
    pub webhooks_apart : webhooks_distinct k rv1.csv.webhook_definitions ≡ true
    pub webhooks_named :
        all
          (λ (w : Webhook k). is_empty (k.is_dns1123_subdomain w.generate_name))
          rv1.csv.webhook_definitions
        ≡ true
    -- references: owned definitions are in the bundle, webhooks have a deployment of the bundle,
    -- and a definition is converted by one webhook, once, and owned
    pub owned_exist : all (λ n. contains (crd_names k rv1) n) rv1.csv.owned ≡ true
    pub webhooks_deployed :
        all
          (λ (w : Webhook k). contains (deployment_names k rv1) w.deployment_name)
          rv1.csv.webhook_definitions
        ≡ true
    pub converted_once : distinct (converted k (conversion_webhooks k rv1)) ≡ true
    pub converted_owned :
        all
          (λ (w : Webhook k). all (λ c. contains rv1.csv.owned c) w.conversion_crds)
          (conversion_webhooks k rv1)
        ≡ true
    -- a bundle with a conversion webhook supports the mode AllNamespaces and no other
    pub conversion_supported :
        (is_empty (conversion_webhooks k rv1)
          || supports rv1.csv.install_modes all_namespaces
            && supports_only rv1.csv.install_modes all_namespaces)
        ≡ true
    -- admission webhooks have no forbidden rule, and other objects are of a supported kind
    pub rules_allowed : all (has_allowed_rules k) rv1.csv.webhook_definitions ≡ true
    pub objects_supported :
        all (λ (obj : Unstructured k). (k.is_supported obj.kind).0) rv1.others ≡ true

  module _ (rv1 : RegistryV1 k) where
    validate-nil : validate k (bundle_validator k) rv1 ≡ [] → IsValid rv1
    unfolding validate
    validate-nil h =
        let passed = sym (is_empty-flat_map _ (bundle_validator k)) ∙ (is_empty_iff _).0 h in
        record {
          package_named =
              λ e. ground (arith, passed, check_package_name_lem k rv1, eq_iff rv1.package_name "");
          deployments_distinct = ground (arith, passed, check_deployment_spec_uniqueness_lem k rv1);
          deployments_named = ground (arith, passed, check_deployment_name_lem k rv1);
          crds_distinct = ground (arith, passed, check_crd_resource_uniqueness_lem k rv1);
          webhooks_apart = ground (arith, passed, check_webhook_name_uniqueness_lem k rv1);
          webhooks_named = ground (arith, passed, check_webhook_name_lem k rv1);
          owned_exist = ground (arith, passed, check_owned_crd_existence_lem k rv1);
          webhooks_deployed = ground (arith, passed, check_webhook_deployment_lem k rv1);
          converted_once = ground (arith, passed, check_conversion_webhook_crd_lem k rv1);
          converted_owned = ground (arith, passed, check_conversion_webhooks_owned_lem k rv1);
          conversion_supported = ground (arith, passed, check_conversion_webhook_support_lem k rv1);
          rules_allowed = ground (arith, passed, check_webhook_rules_lem k rv1);
          objects_supported = ground (arith, passed, check_object_support_lem k rv1);
        }

    nil-validate : IsValid rv1 → validate k (bundle_validator k) rv1 ≡ []
    unfolding validate
    nil-validate h = (is_empty_iff _).1 (
        is_empty-flat_map _ (bundle_validator k)
        ∙ (rw
            (
              check_deployment_spec_uniqueness_lem k rv1 ∙ h.deployments_distinct,
              check_deployment_name_lem k rv1 ∙ h.deployments_named,
              check_crd_resource_uniqueness_lem k rv1 ∙ h.crds_distinct,
              check_owned_crd_existence_lem k rv1 ∙ h.owned_exist,
              check_package_name_lem k rv1,
              check_conversion_webhook_support_lem k rv1 ∙ h.conversion_supported,
              check_webhook_deployment_lem k rv1 ∙ h.webhooks_deployed,
              check_webhook_name_uniqueness_lem k rv1 ∙ h.webhooks_apart,
              check_webhook_name_lem k rv1 ∙ h.webhooks_named,
              check_conversion_webhook_crd_lem k rv1 ∙ h.converted_once,
              check_conversion_webhooks_owned_lem k rv1 ∙ h.converted_owned,
              check_webhook_rules_lem k rv1 ∙ h.rules_allowed,
              check_object_support_lem k rv1 ∙ h.objects_supported,
            )
            (ground (arith, h.package_named, eq_iff rv1.package_name ""))))

    -- `BundleValidator` reports no error on a bundle exactly where the bundle is valid: its names are
    -- distinct and well formed, what it refers to exists, each definition that is converted is
    -- converted once and owned, its install modes suit its conversion webhooks, its webhooks' rules
    -- name nothing forbidden, and its other objects are of supported kinds.
    pub validate_iff : (validate k (bundle_validator k) rv1 ≡ []) ↔ IsValid rv1
    validate_iff = (validate-nil, nil-validate)
