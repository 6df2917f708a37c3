-- ===== src/Storage.antt =====
-- jenezis/storage: the metadata tables and the graph store.
pub mod Status
pub mod Metadata
pub mod Canonical
pub mod Identifiers
pub mod Labels
pub mod Rows
pub mod Graph
pub mod Costs
pub mod Migrations
