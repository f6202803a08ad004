-- ===== src/Registry.antt =====
-- Registry+v1 bundles (bundle/registry/v1): their validation and their rendering.
mod Packages
mod Workloads
mod Bundles
pub use Packages.*
pub use Workloads.*
unfoldable pub use Bundles.*
