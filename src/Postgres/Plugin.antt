-- ===== src/Postgres/Plugin.antt =====
-- plugin.py of the PostgreSQL adapter: `PostgresPlugin`, whose `_repo` and `_status` are the slot of a
-- session over the process.
use openframe_adapters.Prelude.{Bool, Option, none, some, Text, [], ◌∷◌, if◌then◌else◌}
use openframe_adapters.Effect.{Outcome, ok, raised, Action, ◌>>=◌, ◌>>◌, pure, raise, gets, catch}
use openframe_adapters.Effect.Errors.{
  Failure, adapter_error, type_error, connection_error, is_exception, PluginHealth, literal,
  plugin_status, str_of, ready, failed, is_ready,
}
use openframe_adapters.Lifecycle.{
  Slot, fresh, on_world, hold, initialize_with, shutdown_with, get_held,
}
use openframe_adapters.Postgres.Driver.{
  Driver, PostgresSettings, RepositoryClass, builtin_exception,
}
use openframe_adapters.Postgres.Connection.{World, call, get_postgres_pool}
use openframe_adapters.Postgres.Repository.{Repo, new_repository}
use openframe_adapters.Postgres.Repository

-- `_settings`, `_table`, `_id_column` and `_repository_class`; an empty table means a plugin that
-- manages connections only.
pub record Plugin (V R X T : Type 0) : Type 0 where
  pub settings : PostgresSettings
  pub table : Text
  pub id_column : Text
  pub repository_class : RepositoryClass V R X T

-- `__init__`: the object and the slot that it begins with; no class is one that is not a subclass of
-- `PostgresRepository`.
unfoldable pub new_plugin :
    {V R X T : Type 0}
    → PostgresSettings
    → Text
    → Text
    → Option (RepositoryClass V R X T)
    → Outcome (Failure X) (Plugin V R X T × Slot (Repo V R X T))
new_plugin settings table id_column none = raised type_error
new_plugin settings table id_column (some cls) = ok (
  record { settings = settings; table = table; id_column = id_column; repository_class = cls },
  fresh,
)

-- The plugin and the process it runs in.
abbrev pub Session : Type 0 → Type 0 → Type 0 → Type 0 → Type 0 → Type 0 → Type 0
Session C S V R X T = Slot (Repo V R X T) × World C S

-- What `except Exception` catches.
abbrev pub catches : {C K S V R X : Type 0} → Driver C K S V R X → X → Bool
catches d x = d.isinstance x builtin_exception

-- What `initialize` raises where the database does not answer.
abbrev pub unreachable : {X : Type 0} → Failure X
unreachable = adapter_error (record {
  error_class = connection_error;
  adapter = "postgres";
  operation = "initialize";
  cause = none;
})

module _ {C K S V R X T : Type 0} (d : Driver C K S V R X) where
  module _ (self : Plugin V R X T) where
    -- Build the repository and ask for its health.
    unfoldable pub connect_table : Action (Session C S V R X T) (Failure X) (Unit {0})
    connect_table = do
      repo ←
          λ s. (new_repository d self.settings self.table self.id_column self.repository_class, s)
      hold repo
      health ← on_world (Repository.health d self.settings)
      if is_ready health.status then pure tt else raise unreachable

    -- Without a table: `SELECT 1` on the pool.
    unfoldable pub connect_pool : C → Action (Session C S V R X T) (Failure X) (Unit {0})
    connect_pool pool =
        catch (on_world (call (d.select_one pool)))
          (λ e. if is_exception (catches d) e then raise unreachable else raise e)

    -- The body of the `try` in `initialize`.
    unfoldable pub connect : Action (Session C S V R X T) (Failure X) (Unit {0})
    unfolding connect_table connect_pool
    connect = do
      pool ← on_world (get_postgres_pool d self.settings)
      elim self.table [ [] ↦ connect_pool pool | c ∷ cs ↦ connect_table ]

    unfoldable pub initialize : Action (Session C S V R X T) (Failure X) (Unit {0})
    unfolding connect
    initialize = initialize_with (catches d) connect

    -- The pool where there is no repository.
    unfoldable pub pool_health : Action (Session C S V R X T) (Failure X) (PluginHealth X)
    pool_health =
        catch
          (do
            pool ← on_world (get_postgres_pool d self.settings)
            on_world (call (d.select_one pool))
            pure (record { status = ready; message = literal "" }))
          (λ e.
            if is_exception (catches d) e
            then pure (record { status = failed; message = str_of e })
            else raise e)

    abbrev pub held_health :
        Option (Repo V R X T) → Action (Session C S V R X T) (Failure X) (PluginHealth X)
    held_health (some r) = on_world (Repository.health d r.settings)
    held_health none = pool_health

    unfoldable pub health : Action (Session C S V R X T) (Failure X) (PluginHealth X)
    unfolding pool_health
    health =
        catch
          (do
            slot ← gets (λ s. s.0)
            if is_ready slot.status
                then held_health slot.held
                else pure (record { status = failed; message = plugin_status slot.status }))
          (λ e.
            if is_exception (catches d) e
            then pure (record { status = failed; message = str_of e })
            else raise e)

  unfoldable pub shutdown : Action (Session C S V R X T) (Failure X) (Unit {0})
  shutdown = shutdown_with (catches d) (λ r. Repository.close d r.settings)

-- Both refusals of `get_repository` are a `RuntimeError`.
unfoldable pub get_repository :
    {V R X T : Type 0} → Slot (Repo V R X T) → Outcome (Failure X) (Repo V R X T)
get_repository = get_held
