-- ===== src/Chroma.antt =====
-- The ChromaDB adapter, packages/openframe-adapters-db-chromadb.
pub mod Driver
pub mod Connection
pub mod Rows
pub mod Repository
pub mod Transposing
pub mod Refusing
pub mod Plugin
pub mod Fake
mod Tests
