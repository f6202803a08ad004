-- ===== src/Catalog.antt =====
-- The query interfaces of catalog/v1, which resolution is written against.
mod Api
mod Store
mod Kept
pub use Api.*
unfoldable pub use Store.*
pub use Kept.*
