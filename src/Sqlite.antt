-- ===== src/Sqlite.antt =====
-- The store of catalogs in SQLite (catalog/v1/sqlite): tables, the writer, the store and the queries.
mod Tables
mod Keys
mod Writer
mod Joins
mod Graphs
mod Queries
mod Deletion
mod Store
mod Select
mod Catalogs
mod Migrations
pub mod Selecting
pub mod Paths
pub mod Reopening
mod Foreign
mod Isolation
pub mod Transactions
pub mod Labelled
pub mod Edges
pub mod Rounds
pub mod Descent
mod Forest
pub mod Contents
pub mod Resolving
pub mod Succession
mod Tests
mod SelectorTests
mod ImportTests
unfoldable pub use Tables.*
unfoldable pub use Keys.*
unfoldable pub use Writer.*
unfoldable pub use Joins.*
unfoldable pub use Graphs.*
unfoldable pub use Queries.*
unfoldable pub use Deletion.*
unfoldable pub use Store.*
unfoldable pub use Select.*
unfoldable pub use Catalogs.*
unfoldable pub use Migrations.*
