-- ===== src/Qdrant.antt =====
-- The Qdrant adapter, packages/openframe-adapters-db-qdrant.
pub mod Driver
pub mod Connection
pub mod Points
pub mod Repository
pub mod Listing
pub mod Plugin
pub mod Fake
mod Tests
