-- ===== src/Mariadb/Tests.antt =====
-- The plugin of a SQL database at a plugin of MariaDB, on the database in memory.
use openframe_adapters.Prelude.{none, ℕ, refl, some, [], ◌∷◌, codes}
use openframe_adapters.Effect.Errors.{ready}
use openframe_adapters.Lifecycle.{initialize_with}
use openframe_adapters.Dict.{lookup, insert}
use openframe_adapters.Sql.Plugin.{connect, connect_table, connect_pool, initialize}
use openframe_adapters.Sql.PluginLife.{HasStarted, initialize_by_table}
use openframe_adapters.Mysql.Connection.{get_mysql_pool, pool_args}
use openframe_adapters.Mysql.Repository
use openframe_adapters.Mysql.Fake.{Database, fake, items}
use openframe_adapters.Mariadb.Connection.{MariadbSettings, pool_key, get_mariadb_pool}
use openframe_adapters.Mariadb.Repository.{health, new_repository}
use openframe_adapters.Mariadb.Plugin.{Plugin, Session, backend}

abbrev orders : MariadbSettings
orders = record {
  database_url = codes "mysql://localhost/orders";
  pool_size = 10;
  pool_recycle = 300000;
  pool_connect_timeout = 10000;
  adapter_name = "mariadb";
}

abbrev plugin : Plugin ℕ ℕ (Unit {0}) ℕ
plugin = record {
  settings = orders;
  table = codes "orders";
  id_column = codes "id";
  repository_class = items;
}

abbrev still : Database
still = record { ran = 0; committed = 0; changes = 0 }

abbrev started : Session fake plugin
started = (
  record {
    held = some (record {
      settings = orders;
      table = codes "orders";
      id_column = codes "id";
      class_of = items;
    });
    status = ready;
  },
  ((pool_key orders, 7) ∷ [], record still { ran = 1 }),
)

-- A plugin without a table, and what its `initialize` leaves.
abbrev no_table : Plugin ℕ ℕ (Unit {0}) ℕ
no_table = record plugin { table = [] }

abbrev pooled : Session fake no_table
pooled =
    (record { held = none; status = ready }, ((pool_key orders, 7) ∷ [], record still { ran = 1 }))

initialize_by_table_example :
    HasStarted (backend fake plugin) (codes "orders") started
    × HasStarted (backend fake no_table) [] pooled
unfolding fake initialize initialize_with connect connect_table connect_pool new_repository
    get_mariadb_pool get_mysql_pool lookup insert health Repository.health Repository.ping
    Repository.new_repository pool_args
initialize_by_table_example = (
  initialize_by_table (backend fake plugin) ([], still) {s = started} refl,
  initialize_by_table (backend fake no_table) ([], still) {s = pooled} refl,
)
