-- ===== src/Validators/Errors.antt =====
-- The errors of the checks, with what each message is made of.
use library_olm.Prelude.{String, List}

pub data ValidationError : Type 0 where
  duplicate_deployment : String → ValidationError
  -- a name, and the complaints about it
  invalid_deployment_name : String → List String → ValidationError
  missing_crd : String → ValidationError
  duplicate_crd : String → ValidationError
  empty_package_name : ValidationError
  -- a conversion webhook, and the supported install modes
  unsupported_conversion_webhook : String → List String → ValidationError
  -- a webhook's type, name and deployment
  missing_deployment : String → String → String → ValidationError
  -- a name and a type
  duplicate_webhook : String → String → ValidationError
  -- a webhook and a custom resource definition
  unowned_crd : String → String → ValidationError
  -- webhooks, and the custom resource definition that they share
  shared_crd : List String → String → ValidationError
  -- a type, a name, and the complaints about it
  invalid_webhook_name : String → String → List String → ValidationError
  -- a webhook and an API group
  forbidden_api_group : String → String → ValidationError
  -- a webhook, a resource and its API group
  forbidden_resource : String → String → String → ValidationError
  -- a name and a kind
  unsupported_object : String → String → ValidationError
