-- ===== src/Postgres.antt =====
-- The PostgreSQL adapter (packages/openframe-adapters-db-postgres/openframe/adapters/db/postgres):
-- settings and driver, the pool cache, the statements, the repository and the plugin.
pub mod Driver
pub mod Connection
pub mod Statements
pub mod Repository
pub mod Plugin
pub mod Decimal
pub mod Binding
pub mod PoolCache
pub mod Deleting
pub mod Translation
pub mod PluginLife
pub mod Fake
mod Tests
