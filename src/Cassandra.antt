-- ===== src/Cassandra.antt =====
-- The Cassandra adapter, packages/openframe-adapters-db-cassandra.
pub mod Driver
pub mod Connection
pub mod Repository
pub mod Listing
pub mod Plugin
pub mod Fake
mod Tests
