-- ===== src/Validators/Validate.antt =====
-- `BundleValidator` (internal/render/registryv1/registryv1.go) and `Validate` (render.go).
use library_olm.Prelude.{List, [], ◌∷◌, flat_map}
use library_olm.Registry.{Kube, RegistryV1}
use library_olm.Validators.Errors.{ValidationError}
use library_olm.Validators.Names.{
  check_deployment_spec_uniqueness, check_deployment_name_is_dns1123_subdomain,
  check_package_name_not_empty,
}
use library_olm.Validators.Crds.{
  check_owned_crd_existence, check_crd_resource_uniqueness, check_object_support,
}
use library_olm.Validators.Webhooks.{
  check_webhook_name_uniqueness, check_webhook_name_is_dns1123_subdomain,
}
use library_olm.Validators.References.{
  check_conversion_webhook_support, check_webhook_deployment_referential_integrity,
  check_conversion_webhooks_reference_owned_crds, check_conversion_webhook_crd_reference_uniqueness,
}
use library_olm.Validators.Rules.{check_webhook_rules}

module _ (k : Kube) where
  -- in the order in which they run
  abbrev pub bundle_validator : List (RegistryV1 k → List ValidationError)
  bundle_validator =
      check_deployment_spec_uniqueness k
      ∷ check_deployment_name_is_dns1123_subdomain k
      ∷ check_crd_resource_uniqueness k
      ∷ check_owned_crd_existence k
      ∷ check_package_name_not_empty k
      ∷ check_conversion_webhook_support k
      ∷ check_webhook_deployment_referential_integrity k
      ∷ check_webhook_name_uniqueness k
      ∷ check_webhook_name_is_dns1123_subdomain k
      ∷ check_conversion_webhook_crd_reference_uniqueness k
      ∷ check_conversion_webhooks_reference_owned_crds k
      ∷ check_webhook_rules k
      ∷ check_object_support k
      ∷ []

  -- The errors that `errors.Join` joins: nil is the empty list.
  unfoldable pub validate :
      List (RegistryV1 k → List ValidationError) → RegistryV1 k → List ValidationError
  validate validators rv1 = flat_map (λ validator. validator rv1) validators
