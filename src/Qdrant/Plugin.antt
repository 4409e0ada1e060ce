-- ===== src/Qdrant/Plugin.antt =====
-- plugin.py of the Qdrant adapter: `QdrantPlugin`, as a plugin with or without a collection.
use openframe_adapters.Prelude.{Option, none, some, Text}
use openframe_adapters.Effect.{Outcome, ok, raised, Action}
use openframe_adapters.Effect.Objects.{call}
use openframe_adapters.Effect.Errors.{Failure, type_error, PluginHealth}
use openframe_adapters.Lifecycle.{Slot, fresh}
use openframe_adapters.Sql.Plugin as SqlPlugin
use openframe_adapters.Sql.Plugin.{Backend}
use openframe_adapters.Qdrant.Driver.{Driver, QdrantSettings, builtin_exception}
use openframe_adapters.Qdrant.Connection.{World, get_qdrant_client}
use openframe_adapters.Qdrant.Repository
use openframe_adapters.Qdrant.Repository.{Store, StoreClass, new_store}

-- `_settings`, `_collection` and `_repository_class`; an empty collection means a plugin that manages
-- the client only.
pub record Plugin (J X T : Type 0) : Type 0 where
  pub settings : QdrantSettings
  pub collection : Text
  pub repository_class : StoreClass J X T

-- `__init__`: the object and the slot that it begins with; no class is one that is not a subclass of
-- `QdrantVectorStore`.
unfoldable pub new_plugin :
    {J X T : Type 0}
    → QdrantSettings
    → Text
    → Option (StoreClass J X T)
    → Outcome (Failure X) (Plugin J X T × Slot (Store J X T))
new_plugin settings collection none = raised type_error
new_plugin settings collection (some cls) =
    ok (record { settings = settings; collection = collection; repository_class = cls }, fresh)

module _ {C J S X T : Type 0} (d : Driver C J S X) (self : Plugin J X T) where
  -- The plugin's own adapter.
  abbrev pub backend : Backend C (World C S) (Store J X T) X
  backend = record {
    name = "qdrant";
    table = self.collection;
    catches = λ x. d.isinstance x builtin_exception;
    get_pool = get_qdrant_client d self.settings;
    select_one = λ client. call (d.get_collections client);
    new_repository = new_store self.settings self.collection self.repository_class;
    repository_health = λ r. Repository.health d r.settings;
    repository_close = λ r. Repository.close d r.settings;
  }

  abbrev pub Session : Type 0
  Session = Slot (Store J X T) × World C S

  unfoldable pub initialize : Action Session (Failure X) (Unit {0})
  initialize = SqlPlugin.initialize backend

  unfoldable pub shutdown : Action Session (Failure X) (Unit {0})
  shutdown = SqlPlugin.shutdown backend

  unfoldable pub health : Action Session (Failure X) (PluginHealth X)
  health = SqlPlugin.health backend

unfoldable pub get_repository :
    {J X T : Type 0} → Slot (Store J X T) → Outcome (Failure X) (Store J X T)
get_repository = SqlPlugin.get_repository
