-- ===== src/Mongo/Plugin.antt =====
-- plugin.py of the MongoDB adapter: `MongoPlugin`.
use openframe_adapters.Prelude.{Option, none, some, Text}
use openframe_adapters.Effect.{Outcome, ok, raised, Action, ◌>>◌, pure}
use openframe_adapters.Effect.Errors.{Failure, type_error, PluginHealth}
use openframe_adapters.Lifecycle.{Slot, fresh, get_held}
use openframe_adapters.Lifecycle.Single as Single
use openframe_adapters.Lifecycle.Single.{Backend}
use openframe_adapters.Mongo.Driver.{Driver, MongoSettings, builtin_exception}
use openframe_adapters.Mongo.Connection.{World, get_mongo_client}
use openframe_adapters.Mongo.Repository
use openframe_adapters.Mongo.Repository.{Repo, RepositoryClass}

-- `_settings`, `_collection` and `_repository_class`
pub record Plugin (J X T : Type 0) : Type 0 where
  pub settings : MongoSettings
  pub collection : Text
  pub repository_class : RepositoryClass J X T

-- `__init__`: the object and the slot that it begins with; no class is one that is not a subclass of
-- `MongoRepository`.
unfoldable pub new_plugin :
    {J X T : Type 0}
    → MongoSettings
    → Text
    → Option (RepositoryClass J X T)
    → Outcome (Failure X) (Plugin J X T × Slot (Repo J X T))
new_plugin settings collection none = raised type_error
new_plugin settings collection (some cls) =
    ok (record { settings = settings; collection = collection; repository_class = cls }, fresh)

module _ {C J S X T : Type 0} (d : Driver C J S X) (self : Plugin J X T) where
  -- The plugin's own adapter.
  abbrev pub backend : Backend (World C J S) (Repo J X T) X
  backend = record {
    name = "mongo";
    catches = λ x. d.isinstance x builtin_exception;
    open_client = (do get_mongo_client d self.settings; pure tt);
    new_repository = Repository.new_repository self.settings self.collection self.repository_class;
    reset = λ w. w;
    make_ready = λ r. pure tt;
    repository_health = λ r. Repository.health d r.settings;
    repository_close = λ r. Repository.close d r.settings;
  }

  abbrev pub Session : Type 0
  Session = Slot (Repo J X T) × World C J S

  unfoldable pub initialize : Action Session (Failure X) (Unit {0})
  initialize = Single.initialize backend

  unfoldable pub shutdown : Action Session (Failure X) (Unit {0})
  shutdown = Single.shutdown backend

  unfoldable pub health : Action Session (Failure X) (PluginHealth X)
  health = Single.health backend

unfoldable pub get_repository :
    {J X T : Type 0} → Slot (Repo J X T) → Outcome (Failure X) (Repo J X T)
get_repository = get_held
