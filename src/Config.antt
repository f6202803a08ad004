-- ===== src/Config.antt =====
-- The configuration of registry+v1 bundles (bundle/registry/v1/internal/bundle/registryv1.go): the
-- schema that a bundle's install modes give it.
mod Values
mod Schema
mod Formats
mod Required
pub mod SchemaFor
mod Agreement
mod Tests
unfoldable pub use Values.*
unfoldable pub use Schema.*
unfoldable pub use Formats.*
