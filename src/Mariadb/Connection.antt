-- ===== src/Mariadb/Connection.antt =====
-- config.py and connection.py of the MariaDB adapter.
use openframe_adapters.Prelude.{ℕ, Text, String}
use openframe_adapters.Effect.{Action}
use openframe_adapters.Effect.Errors.{Failure}
use openframe_adapters.Mysql.Driver.{Driver, MysqlSettings}
use openframe_adapters.Mysql.Connection.{World, PoolKey, get_mysql_pool}
use openframe_adapters.Mysql.Connection

-- Floats are counted in milliseconds.
pub record MariadbSettings : Type 0 where
  pub database_url : Text
  pub pool_size : ℕ
  pub pool_recycle : ℕ
  pub pool_connect_timeout : ℕ
  pub adapter_name : String

-- The same settings, for the code that both adapters write.
abbrev pub as_mysql : MariadbSettings → MysqlSettings
as_mysql settings = record {
  database_url = settings.database_url;
  pool_size = settings.pool_size;
  pool_recycle = settings.pool_recycle;
  pool_connect_timeout = settings.pool_connect_timeout;
  adapter_name = settings.adapter_name;
}

abbrev pub pool_key : MariadbSettings → PoolKey
pool_key settings = Connection.pool_key (as_mysql settings)

unfoldable pub get_mariadb_pool :
    {C K U V R S X : Type 0}
    → Driver C K U V R S X
    → MariadbSettings
    → Action (World C S) (Failure X) C
get_mariadb_pool d settings = get_mysql_pool d (as_mysql settings)
