-- ===== src/Generators.antt =====
-- Rendering of a registry+v1 bundle into Kubernetes objects (bundle/registry/v1/internal/render,
-- with the generators of render/registryv1/generators and util/util.go).
mod ObjectNames
mod Objects
mod Namespaces
mod Permissions
mod Resources
mod Customize
mod Deployments
mod Certificates
mod Services
mod Render
unfoldable pub use ObjectNames.*
pub use Objects.*
unfoldable pub use Namespaces.*
unfoldable pub use Permissions.*
unfoldable pub use Resources.*
unfoldable pub use Customize.*
unfoldable pub use Deployments.*
unfoldable pub use Certificates.*
unfoldable pub use Services.*
unfoldable pub use Render.*
pub mod NameLength
pub mod TargetNamespaces
pub mod InstallNamespace
pub mod EnvOverride
pub mod CertVolumes
pub mod ServiceAccounts
pub mod Rendering
pub mod Accepted
pub mod Dedupe
mod Tests
