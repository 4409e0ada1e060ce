-- ===== src/Mysql/Plugin.antt =====
-- plugin.py of the MySQL adapter: `MySQLPlugin`, as the plugin of a SQL database.
use openframe_adapters.Prelude.{Option, none, some, Text}
use openframe_adapters.Effect.{Outcome, ok, raised, Action}
use openframe_adapters.Effect.Errors.{Failure, type_error, PluginHealth}
use openframe_adapters.Lifecycle.{Slot, fresh}
use openframe_adapters.Sql.{RepositoryClass}
use openframe_adapters.Sql.Plugin as SqlPlugin
use openframe_adapters.Sql.Plugin.{Backend}
use openframe_adapters.Mysql.Driver.{Driver, MysqlSettings, builtin_exception}
use openframe_adapters.Mysql.Connection.{World, get_mysql_pool}
use openframe_adapters.Mysql.Repository
use openframe_adapters.Mysql.Repository.{Repo, ping}

-- `_settings`, `_table`, `_id_column` and `_repository_class`; an empty table means a plugin that
-- manages connections only.
pub record Plugin (V R X T : Type 0) : Type 0 where
  pub settings : MysqlSettings
  pub table : Text
  pub id_column : Text
  pub repository_class : RepositoryClass V R X T

-- `__init__`: the object and the slot that it begins with; no class is one that is not a subclass of
-- `MySQLRepository`.
unfoldable pub new_plugin :
    {V R X T : Type 0}
    → MysqlSettings
    → Text
    → Text
    → Option (RepositoryClass V R X T)
    → Outcome (Failure X) (Plugin V R X T × Slot (Repo V R X T))
new_plugin settings table id_column none = raised type_error
new_plugin settings table id_column (some cls) = ok (
  record { settings = settings; table = table; id_column = id_column; repository_class = cls },
  fresh,
)

module _ {C K U V R S X T : Type 0} (d : Driver C K U V R S X) (self : Plugin V R X T) where
  -- The plugin's own adapter.
  abbrev pub backend : Backend C (World C S) (Repo V R X T) X
  backend = record {
    name = "mysql";
    table = self.table;
    catches = λ x. d.isinstance x builtin_exception;
    get_pool = get_mysql_pool d self.settings;
    select_one = ping d self.settings;
    new_repository =
        Repository.new_repository self.settings self.table self.id_column self.repository_class;
    repository_health = λ r. Repository.health d r.settings;
    repository_close = λ r. Repository.close d r.settings;
  }

  abbrev pub Session : Type 0
  Session = Slot (Repo V R X T) × World C S

  unfoldable pub initialize : Action Session (Failure X) (Unit {0})
  initialize = SqlPlugin.initialize backend

  unfoldable pub shutdown : Action Session (Failure X) (Unit {0})
  shutdown = SqlPlugin.shutdown backend

  unfoldable pub health : Action Session (Failure X) (PluginHealth X)
  health = SqlPlugin.health backend

unfoldable pub get_repository :
    {V R X T : Type 0} → Slot (Repo V R X T) → Outcome (Failure X) (Repo V R X T)
get_repository = SqlPlugin.get_repository
