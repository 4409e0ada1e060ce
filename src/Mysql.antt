-- ===== src/Mysql.antt =====
-- The MySQL adapter (packages/openframe-adapters-db-mysql/openframe/adapters/db/mysql): settings and
-- driver, the pool cache, the statements, the repository and the plugin.
pub mod Driver
pub mod Connection
pub mod Statements
pub mod Errors
pub mod Cursors
pub mod Repository
pub mod Plugin
pub mod Committing
pub mod Writes
pub mod Durable
pub mod Updating
pub mod Fake
mod Tests
