-- ===== src/Dynamodb.antt =====
-- The DynamoDB adapter, packages/openframe-adapters-db-dynamodb.
pub mod Driver
pub mod Connection
pub mod Repository
pub mod Scanning
pub mod Ending
pub mod Plugin
pub mod Fake
mod Tests
