-- ===== src/Cockroach/Connection.antt =====
-- config.py and connection.py of the CockroachDB adapter.
use openframe_adapters.Prelude.{ℕ, Text, String}
use openframe_adapters.Effect.{Action}
use openframe_adapters.Effect.Errors.{Failure}
use openframe_adapters.Postgres.Driver.{Driver, PostgresSettings}
use openframe_adapters.Postgres.Connection.{World, PoolKey, get_postgres_pool}
use openframe_adapters.Postgres.Connection

-- Floats are counted in milliseconds.
pub record CockroachdbSettings : Type 0 where
  pub cockroachdb_url : Text
  pub pool_size : ℕ
  pub pool_max_inactive_conn_lifetime : ℕ
  pub pool_command_timeout : ℕ
  pub pool_max_queries : ℕ
  pub adapter_name : String

-- The same settings, for the code that both adapters write.
abbrev pub as_postgres : CockroachdbSettings → PostgresSettings
as_postgres settings = record {
  database_url = settings.cockroachdb_url;
  pool_size = settings.pool_size;
  pool_max_inactive_conn_lifetime = settings.pool_max_inactive_conn_lifetime;
  pool_command_timeout = settings.pool_command_timeout;
  pool_max_queries = settings.pool_max_queries;
  adapter_name = settings.adapter_name;
}

abbrev pub pool_key : CockroachdbSettings → PoolKey
pool_key settings = Connection.pool_key (as_postgres settings)

unfoldable pub get_cockroachdb_pool :
    {C K S V R X : Type 0}
    → Driver C K S V R X
    → CockroachdbSettings
    → Action (World C S) (Failure X) C
get_cockroachdb_pool d settings = get_postgres_pool d (as_postgres settings)
