-- ===== src/Chroma/Plugin.antt =====
-- plugin.py of the ChromaDB adapter: `ChromaDBPlugin`.
use openframe_adapters.Prelude.{Option, none, some, Text}
use openframe_adapters.Effect.{pure, Outcome, ok, raised, Action}
use openframe_adapters.Effect.Errors.{Failure, type_error, PluginHealth}
use openframe_adapters.Lifecycle.{Slot, fresh, get_held}
use openframe_adapters.Lifecycle.Single as Single
use openframe_adapters.Lifecycle.Single.{Backend}
use openframe_adapters.Chroma.Driver.{Driver, ChromadbSettings, builtin_exception}
use openframe_adapters.Chroma.Connection.{World}
use openframe_adapters.Chroma.Repository
use openframe_adapters.Chroma.Repository.{Repo, RepositoryClass}

-- `_settings`, `_collection` and `_repository_class`
pub record Plugin (J X T : Type 0) : Type 0 where
  pub settings : ChromadbSettings
  pub collection : Text
  pub repository_class : RepositoryClass J X T

-- `__init__`: the object and the slot that it begins with; no class is one that is not a subclass of
-- `ChromaDBRepository`.
unfoldable pub new_plugin :
    {J X T : Type 0}
    → ChromadbSettings
    → Text
    → Option (RepositoryClass J X T)
    → Outcome (Failure X) (Plugin J X T × Slot (Repo J X T))
new_plugin settings collection none = raised type_error
new_plugin settings collection (some cls) =
    ok (record { settings = settings; collection = collection; repository_class = cls }, fresh)

module _ {C N J S X T : Type 0} (d : Driver C N J S X) (self : Plugin J X T) where
  -- The plugin's own adapter: no client is opened first, and a new repository keeps no collection.
  abbrev pub backend : Backend (World C N S) (Repo J X T) X
  backend = record {
    name = self.settings.adapter_name;
    catches = λ x. d.isinstance x builtin_exception;
    open_client = pure tt;
    new_repository = Repository.new_repository self.settings self.collection self.repository_class;
    reset = λ w. (record w.0 { collection_cache = none }, w.1);
    make_ready = λ r. pure tt;
    repository_health = λ r. Repository.health d r;
    repository_close = λ r. Repository.close d r;
  }

  abbrev pub Session : Type 0
  Session = Slot (Repo J X T) × World C N S

  unfoldable pub initialize : Action Session (Failure X) (Unit {0})
  initialize = Single.initialize backend

  unfoldable pub shutdown : Action Session (Failure X) (Unit {0})
  shutdown = Single.shutdown backend

  unfoldable pub health : Action Session (Failure X) (PluginHealth X)
  health = Single.health_by_status backend

unfoldable pub get_repository :
    {J X T : Type 0} → Slot (Repo J X T) → Outcome (Failure X) (Repo J X T)
get_repository = get_held
