-- ===== src/Falkor/Plugin.antt =====
-- plugin.py of the FalkorDB adapter: `FalkorDBPlugin`.
use openframe_adapters.Prelude.{false, Option, none, some}
use openframe_adapters.Effect.{pure, Outcome, ok, raised, Action, ◌>>◌}
use openframe_adapters.Effect.Errors.{Failure, type_error, PluginHealth}
use openframe_adapters.Lifecycle.{Slot, fresh, get_held}
use openframe_adapters.Lifecycle.Single as Single
use openframe_adapters.Lifecycle.Single.{Backend}
use openframe_adapters.Falkor.Driver.{Driver, FalkordbSettings, builtin_exception}
use openframe_adapters.Falkor.Connection.{World, get_falkordb_client}
use openframe_adapters.Falkor.Repository
use openframe_adapters.Falkor.Repository.{Repo, RepositoryClass}

-- `_settings` and `_repository_class`
pub record Plugin (J X T : Type 0) : Type 0 where
  pub settings : FalkordbSettings
  pub repository_class : RepositoryClass J X T

-- `__init__`: the object and the slot that it begins with; no class is one that is not a subclass of
-- `FalkorDBRepository`.
unfoldable pub new_plugin :
    {J X T : Type 0}
    → FalkordbSettings
    → Option (RepositoryClass J X T)
    → Outcome (Failure X) (Plugin J X T × Slot (Repo J X T))
new_plugin settings none = raised type_error
new_plugin settings (some cls) = ok (record { settings = settings; repository_class = cls }, fresh)

module _ {C G J S X T : Type 0} (d : Driver C G J S X) (self : Plugin J X T) where
  -- The plugin's own adapter; a new repository has not ensured its constraint.
  abbrev pub backend : Backend (World C S) (Repo J X T) X
  backend = record {
    name = "falkordb";
    catches = λ x. d.isinstance x builtin_exception;
    open_client = (do get_falkordb_client d self.settings; pure tt);
    new_repository = ok (record { settings = self.settings; class_of = self.repository_class });
    reset = λ w. (record w.0 { constraint_ensured = false }, w.1);
    make_ready = λ r. Repository.ensure_ready d r;
    repository_health = λ r. Repository.health d r;
    repository_close = λ r. Repository.close d r;
  }

  abbrev pub Session : Type 0
  Session = Slot (Repo J X T) × World C S

  unfoldable pub initialize : Action Session (Failure X) (Unit {0})
  initialize = Single.initialize backend

  unfoldable pub shutdown : Action Session (Failure X) (Unit {0})
  shutdown = Single.shutdown backend

  unfoldable pub health : Action Session (Failure X) (PluginHealth X)
  health = Single.health backend

unfoldable pub get_repository :
    {J X T : Type 0} → Slot (Repo J X T) → Outcome (Failure X) (Repo J X T)
get_repository = get_held
