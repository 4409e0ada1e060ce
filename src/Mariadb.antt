-- ===== src/Mariadb.antt =====
-- The MariaDB adapter (packages/openframe-adapters-db-mariadb/openframe/adapters/db/mariadb), whose code
-- is that of the MySQL adapter under other names: each of its functions is the one there, on settings
-- of its own, with the same driver aiomysql.
pub mod Connection
pub mod Repository
pub mod Plugin
mod Tests
