-- ===== src/Dynamodb/Plugin.antt =====
-- plugin.py of the DynamoDB adapter: `DynamoDBPlugin`.
use openframe_adapters.Prelude.{Option, none, some, Text}
use openframe_adapters.Effect.{Outcome, ok, raised, Action, ◌>>◌, pure}
use openframe_adapters.Effect.Errors.{Failure, type_error, PluginHealth}
use openframe_adapters.Lifecycle.{Slot, fresh, get_held}
use openframe_adapters.Lifecycle.Single as Single
use openframe_adapters.Lifecycle.Single.{Backend}
use openframe_adapters.Dynamodb.Driver.{Driver, DynamodbSettings, builtin_exception}
use openframe_adapters.Dynamodb.Connection.{World, get_dynamodb_table}
use openframe_adapters.Dynamodb.Repository
use openframe_adapters.Dynamodb.Repository.{Repo, RepositoryClass}

-- `_settings`, `_id_column` and `_repository_class`
pub record Plugin (R X T : Type 0) : Type 0 where
  pub settings : DynamodbSettings
  pub id_column : Text
  pub repository_class : RepositoryClass R X T

-- `__init__`: the object and the slot that it begins with; no class is one that is not a subclass of
-- `DynamoDBRepository`.
unfoldable pub new_plugin :
    {R X T : Type 0}
    → DynamodbSettings
    → Text
    → Option (RepositoryClass R X T)
    → Outcome (Failure X) (Plugin R X T × Slot (Repo R X T))
new_plugin settings id_column none = raised type_error
new_plugin settings id_column (some cls) =
    ok (record { settings = settings; id_column = id_column; repository_class = cls }, fresh)

module _ {B R L S X T : Type 0} (d : Driver B R L S X) (self : Plugin R X T) where
  -- The plugin's own adapter.
  abbrev pub backend : Backend (World B S) (Repo R X T) X
  backend = record {
    name = "dynamodb";
    catches = λ x. d.isinstance x builtin_exception;
    open_client = (do get_dynamodb_table d self.settings; pure tt);
    new_repository =
        ok (Repository.new_repository self.settings self.id_column self.repository_class);
    reset = λ w. w;
    make_ready = λ r. pure tt;
    repository_health = λ r. Repository.health d r.settings;
    repository_close = λ r. Repository.close d r.settings;
  }

  abbrev pub Session : Type 0
  Session = Slot (Repo R X T) × World B S

  unfoldable pub initialize : Action Session (Failure X) (Unit {0})
  initialize = Single.initialize backend

  unfoldable pub shutdown : Action Session (Failure X) (Unit {0})
  shutdown = Single.shutdown backend

  unfoldable pub health : Action Session (Failure X) (PluginHealth X)
  health = Single.health_by_status backend

unfoldable pub get_repository :
    {R X T : Type 0} → Slot (Repo R X T) → Outcome (Failure X) (Repo R X T)
get_repository = get_held
