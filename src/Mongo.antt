-- ===== src/Mongo.antt =====
-- The MongoDB adapter, packages/openframe-adapters-db-mongo.
pub mod Driver
pub mod Connection
pub mod Documents
pub mod Repository
pub mod Aliasing
pub mod Serialising
pub mod Plugin
pub mod Fake
mod Tests
