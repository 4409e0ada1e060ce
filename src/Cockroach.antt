-- ===== src/Cockroach.antt =====
-- The CockroachDB adapter (packages/openframe-adapters-db-cockroachdb/openframe/adapters/db/cockroachdb),
-- whose code is that of the PostgreSQL adapter under other names: its functions are those there, on
-- settings of its own, with the same driver asyncpg.
pub mod Connection
pub mod Repository
pub mod Plugin
