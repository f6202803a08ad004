-- ===== src/Fbc.antt =====
-- File-based catalogs (catalog/v1/fbc): blobs are ingested into a staging database, and packages are
-- normalized from there through a writer.
mod Blobs
mod Staging
mod Ingest
mod Accessor
mod Handler
mod Importer
mod Pipeline
pub mod Validity
pub mod Batches
pub mod Blocking
pub mod Hanging
pub mod RoundTrip
pub mod Merging
pub mod Calls
pub mod Making
pub mod Entries
pub mod Updates
pub mod Writes
mod Tests
pub use Blobs.*
unfoldable pub use Staging.*
unfoldable pub use Ingest.*
unfoldable pub use Accessor.*
unfoldable pub use Handler.*
unfoldable pub use Importer.*
pub use Pipeline.*
