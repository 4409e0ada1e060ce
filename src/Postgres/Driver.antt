-- ===== src/Postgres/Driver.antt =====
-- What the PostgreSQL adapter takes from outside: asyncpg and asyncio, as one record of calls on the
-- state `S` of the outside world; `C` are pools, `K` connections, `V` column values, `R` rows and
-- `X` exceptions. An awaited call stands for the call inside its `asyncio.timeout` block. Also the
-- settings of packages/openframe-adapters-db-postgres/openframe/adapters/db/postgres/config.py.
use openframe_adapters.Prelude.{ℕ, Bool, Option, List, Text, String}
use openframe_adapters.Effect.{Action}
pub use openframe_adapters.Sql.{Argument, identifier, number, value, null, RepositoryClass}

-- The exception classes that the sources name.
pub data PostgresClass : Type 0 where
  asyncio_timeout invalid_catalog_name invalid_password cannot_connect_now : PostgresClass
  too_many_connections os_error connection_does_not_exist connection_failure : PostgresClass
  interface_error postgres_error builtin_exception : PostgresClass

-- Floats are counted in milliseconds.
pub record PostgresSettings : Type 0 where
  pub database_url : Text
  pub pool_size : ℕ
  pub pool_max_inactive_conn_lifetime : ℕ
  pub pool_command_timeout : ℕ
  pub pool_max_queries : ℕ
  pub adapter_name : String

pub record Driver (C K S V R X : Type 0) : Type 0 where
  pub isinstance : X → PostgresClass → Bool
  pub create_pool : PostgresSettings → Action S X C
  pub fetchrow : C → Text → List (Argument V) → Action S X (Option R)
  pub execute : C → Text → List (Argument V) → Action S X Text
  -- `pool.fetchval("SELECT 1")`
  pub select_one : C → Action S X (Unit {0})
  -- `pool.acquire()`, and its end
  pub acquire : C → Action S X K
  pub release : C → K → Action S X (Unit {0})
  pub fetch : K → Text → List (Argument V) → Action S X (List R)
  -- `conn.fetchval(query)` of a count
  pub fetch_count : K → Text → Action S X ℕ
  pub close : C → Action S X (Unit {0})
