-- ===== src/Bundle.antt =====
-- Bundle identity (bundle/v1): releases, versions with releases, named bundles and their order.
mod Versions
mod Releases
mod Identity
pub mod Order
mod RoundTrip
mod Tests
pub use Versions.*
unfoldable pub use Releases.*
unfoldable pub use Identity.*
