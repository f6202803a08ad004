-- ===== src/Validators.antt =====
-- The checks of a registry+v1 bundle (bundle/registry/v1/internal/render/registryv1/validators/
-- validator.go) and `BundleValidator`, which runs them all.
mod Errors
mod Names
mod Crds
mod Webhooks
mod References
mod Rules
mod Validate
pub mod NameChecks
mod WebhookChecks
pub mod ReferenceChecks
pub mod SupportChecks
mod RuleChecks
pub mod Validity
pub mod Duplicates
mod Tests
unfoldable pub use Errors.*
unfoldable pub use Names.*
unfoldable pub use Crds.*
unfoldable pub use Webhooks.*
unfoldable pub use References.*
unfoldable pub use Rules.*
unfoldable pub use Validate.*
