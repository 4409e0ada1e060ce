-- ===== src/Milvus/Plugin.antt =====
-- plugin.py of the Milvus adapter: `MilvusPlugin`, as a plugin with or without a collection.
use openframe_adapters.Prelude.{Option, none, some, Text}
use openframe_adapters.Effect.{Outcome, ok, raised, Action}
use openframe_adapters.Effect.Objects.{call}
use openframe_adapters.Effect.Errors.{Failure, type_error, PluginHealth}
use openframe_adapters.Lifecycle.{Slot, fresh}
use openframe_adapters.Sql.Plugin as SqlPlugin
use openframe_adapters.Sql.Plugin.{Backend}
use openframe_adapters.Milvus.Driver.{Driver, MilvusSettings, builtin_exception}
use openframe_adapters.Milvus.Connection.{World, get_milvus_client}
use openframe_adapters.Milvus.Repository
use openframe_adapters.Milvus.Repository.{Repo, RepositoryClass}

-- `_settings`, `_collection_name`, `_id_field`, `_vector_field` and `_repository_class`; an empty collection means a plugin that manages
-- the client only.
pub record Plugin (J X T : Type 0) : Type 0 where
  pub settings : MilvusSettings
  pub collection_name : Text
  pub id_field : Text
  pub vector_field : Text
  pub repository_class : RepositoryClass J X T

-- `__init__`: the object and the slot that it begins with; no class is one that is not a subclass of
-- `MilvusRepository`.
unfoldable pub new_plugin :
    {J X T : Type 0}
    → MilvusSettings
    → Text
    → Text
    → Text
    → Option (RepositoryClass J X T)
    → Outcome (Failure X) (Plugin J X T × Slot (Repo J X T))
new_plugin settings collection_name id_field vector_field none = raised type_error
new_plugin settings collection_name id_field vector_field (some cls) = ok (
  record {
    settings = settings;
    collection_name = collection_name;
    id_field = id_field;
    vector_field = vector_field;
    repository_class = cls;
  },
  fresh,
)

module _ {C J S X T : Type 0} (d : Driver C J S X) (self : Plugin J X T) where
  -- The plugin's own adapter.
  abbrev pub backend : Backend C (World C S) (Repo J X T) X
  backend = record {
    name = "milvus";
    table = self.collection_name;
    catches = λ x. d.isinstance x builtin_exception;
    get_pool = get_milvus_client d self.settings;
    select_one = λ client. call (d.list_collections client);
    new_repository =
        Repository.new_repository self.settings self.collection_name self.id_field self.vector_field
          self.repository_class;
    repository_health = λ r. Repository.health d r.settings;
    repository_close = λ r. Repository.close d r.settings;
  }

  abbrev pub Session : Type 0
  Session = Slot (Repo J X T) × World C S

  unfoldable pub initialize : Action Session (Failure X) (Unit {0})
  initialize = SqlPlugin.initialize backend

  unfoldable pub shutdown : Action Session (Failure X) (Unit {0})
  shutdown = SqlPlugin.shutdown backend

  unfoldable pub health : Action Session (Failure X) (PluginHealth X)
  health = SqlPlugin.health backend

unfoldable pub get_repository :
    {J X T : Type 0} → Slot (Repo J X T) → Outcome (Failure X) (Repo J X T)
get_repository = SqlPlugin.get_repository
