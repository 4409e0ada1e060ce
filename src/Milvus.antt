-- ===== src/Milvus.antt =====
-- The Milvus adapter, packages/openframe-adapters-db-milvus.
pub mod Driver
pub mod Connection
pub mod Errors
pub mod Repository
pub mod Storing
pub mod Plugin
pub mod Fake
mod Tests
