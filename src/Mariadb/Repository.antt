-- ===== src/Mariadb/Repository.antt =====
-- repository.py of the MariaDB adapter: `MariadbRepository` and its methods.
use openframe_adapters.Prelude.{ℕ, Bool, Option, List, Text, String}
use openframe_adapters.Effect.{Outcome, ok, raised, Action}
use openframe_adapters.Effect.Errors.{Failure, PluginHealth}
use openframe_adapters.Sql.{RepositoryClass}
use openframe_adapters.Mysql.Driver.{Driver}
use openframe_adapters.Mysql.Connection.{World}
use openframe_adapters.Mysql.Errors
use openframe_adapters.Mysql.Repository
use openframe_adapters.Mariadb.Connection.{MariadbSettings, as_mysql}

-- `_settings`, `_table`, `_id_column` and the class of the object
pub record Repo (V R X T : Type 0) : Type 0 where
  pub settings : MariadbSettings
  pub table : Text
  pub id_column : Text
  pub class_of : RepositoryClass V R X T

abbrev pub as_repo : {V R X T : Type 0} → Repo V R X T → Repository.Repo V R X T
as_repo self = record {
  settings = as_mysql self.settings;
  table = self.table;
  id_column = self.id_column;
  class_of = self.class_of;
}

-- `__init__`; an argument that is not given is the empty text.
unfoldable pub new_repository :
    {V R X T : Type 0}
    → MariadbSettings
    → Text
    → Text
    → RepositoryClass V R X T
    → Outcome (Failure X) (Repo V R X T)
new_repository settings table id_column cls =
    elim (Repository.new_repository (as_mysql settings) table id_column cls) [
      | raised e ↦ raised e
      | ok r ↦ ok (record {
        settings = settings;
        table = r.table;
        id_column = r.id_column;
        class_of = r.class_of;
      })
    ]

module _ {C K U V R S X : Type 0} (d : Driver C K U V R S X) where
  unfoldable pub wrap_pymysql : MariadbSettings → X → String → Failure X
  wrap_pymysql settings = Errors.wrap_pymysql d (as_mysql settings)

  module _ {T : Type 0} (self : Repo V R X T) where
    unfoldable pub get : Text → Action (World C S) (Failure X) (Option T)
    get = Repository.get d (as_repo self)

    unfoldable pub list : ℕ → ℕ → Action (World C S) (Failure X) (List T × ℕ)
    list = Repository.list d (as_repo self)

    unfoldable pub create : T → Action (World C S) (Failure X) T
    create = Repository.create d (as_repo self)

    unfoldable pub update : T → Action (World C S) (Failure X) (Option T)
    update = Repository.update d (as_repo self)

    unfoldable pub delete : Text → Action (World C S) (Failure X) Bool
    delete = Repository.delete d (as_repo self)

  module _ (settings : MariadbSettings) where
    unfoldable pub close : Action (World C S) (Failure X) (Unit {0})
    close = Repository.close d (as_mysql settings)

    unfoldable pub health : Action (World C S) (Failure X) (PluginHealth X)
    health = Repository.health d (as_mysql settings)

    unfoldable pub initialize : Action (World C S) (Failure X) (Unit {0})
    initialize = Repository.initialize d (as_mysql settings)

    unfoldable pub shutdown : Action (World C S) (Failure X) (Unit {0})
    shutdown = close
