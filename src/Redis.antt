-- ===== src/Redis.antt =====
-- The Redis adapter (packages/openframe-adapters-db-redis/openframe/adapters/db/redis): settings
-- and driver, the client cache, the repository, the plugin, and the theorems about them.
pub mod Alone
pub mod Driver
pub mod Connection
pub mod Keys
pub mod Repository
pub mod Cache
pub mod Translation
pub mod Escapes
pub mod Store
pub mod KeySpace
pub mod RoundTrip
pub mod Paging
pub mod Listing
pub mod Plugin
pub mod PluginLife
pub mod Fake
mod Tests
pub mod Spec
pub mod Refinement
mod SpecTests
pub mod Race
mod RaceTests
