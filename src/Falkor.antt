-- ===== src/Falkor.antt =====
-- The FalkorDB adapter, packages/openframe-adapters-db-falkordb.
pub mod Driver
pub mod Labels
pub mod Connection
pub mod Queries
pub mod Repository
pub mod Ensuring
pub mod Plugin
pub mod Fake
mod Tests
