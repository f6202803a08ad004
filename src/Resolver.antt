-- ===== src/Resolver.antt =====
-- Resolution (resolver/v1/resolve.go): the bundles of a package that meet the caller's criteria.
mod Config
mod Select
mod Walk
mod Collect
mod Arrange
mod Resolve
mod Tests
pub mod Groups
pub mod Selection
pub mod Paths
pub mod Distinct
pub mod Results
unfoldable pub use Config.*
unfoldable pub use Select.*
unfoldable pub use Walk.*
unfoldable pub use Collect.*
unfoldable pub use Arrange.*
unfoldable pub use Resolve.*
