-- ===== src/Helm.antt =====
-- Helm bundles (bundle/helm/v1/internal): what a chart may use and what its objects may have.
mod Hermetic
mod Metadata
pub mod Plain
mod Tests
unfoldable pub use Hermetic.*
unfoldable pub use Metadata.*
