-- ===== src/Redis/Plugin.antt =====
-- plugin.py of the Redis adapter: `RedisPlugin`, whose `_repo` and `_status` are the slot of a
-- session over the process.
use openframe_adapters.Prelude.{Bool, none, if◌then◌else◌}
use openframe_adapters.Effect.{Outcome, ok, raised, Action, ◌>>=◌, ◌>>◌, pure, raise}
use openframe_adapters.Effect.Errors.{
  Failure, adapter_error, type_error, connection_error, PluginHealth, is_ready,
}
use openframe_adapters.Lifecycle.{
  Slot, fresh, on_world, hold, initialize_with, shutdown_with, health_with, get_held,
}
use openframe_adapters.Redis.Driver.{Driver, RedisSettings, builtin_exception}
use openframe_adapters.Redis.Keys.{Mapping}
use openframe_adapters.Redis.Connection.{World, get_redis_client}
use openframe_adapters.Redis.Repository

-- The `repository_class` argument: a subclass of `RedisRepository` with its hooks, or not one.
pub data RepositoryClass (T X : Type 0) : Type 0 where
  subclass : Mapping T X → RepositoryClass T X
  unrelated : RepositoryClass T X

-- A repository object: its settings and the hooks of its class.
pub record Repo (T X : Type 0) : Type 0 where
  pub settings : RedisSettings
  pub hooks : Mapping T X

-- The plugin and the process it runs in.
abbrev pub Session : Type 0 → Type 0 → Type 0 → Type 0 → Type 0
Session C S X T = Slot (Repo T X) × World C S

-- `__init__`: the object with its class, and the slot that it begins with.
unfoldable pub new_plugin :
    {T X : Type 0}
    → RedisSettings
    → RepositoryClass T X
    → Outcome (Failure X) (Repo T X × Slot (Repo T X))
new_plugin settings unrelated = raised type_error
new_plugin settings (subclass hooks) = ok (record { settings = settings; hooks = hooks }, fresh)

-- What `except Exception` catches.
abbrev pub catches : {C S X : Type 0} → Driver C S X → X → Bool
catches d x = d.isinstance x builtin_exception

-- What `initialize` raises where the health check fails.
abbrev pub not_healthy : {X : Type 0} → Failure X
not_healthy = adapter_error (record {
  error_class = connection_error;
  adapter = "redis";
  operation = "initialize";
  cause = none;
})

module _ {C S X T : Type 0} (d : Driver C S X) where
  module _ (plugin : Repo T X) where
    -- The body of the `try` in `initialize`.
    unfoldable pub connect : Action (Session C S X T) (Failure X) (Unit {0})
    connect = do
      on_world (get_redis_client d plugin.settings)
      hold plugin
      health ← on_world (Repository.health d plugin.settings)
      if is_ready health.status then pure tt else raise not_healthy

    unfoldable pub initialize : Action (Session C S X T) (Failure X) (Unit {0})
    unfolding connect
    initialize = initialize_with (catches d) connect

  unfoldable pub shutdown : Action (Session C S X T) (Failure X) (Unit {0})
  shutdown = shutdown_with (catches d) (λ r. Repository.close d r.settings)

  unfoldable pub health : Action (Session C S X T) (Failure X) (PluginHealth X)
  health = health_with (catches d) (λ r. Repository.health d r.settings)

unfoldable pub get_repository : {X T : Type 0} → Slot (Repo T X) → Outcome (Failure X) (Repo T X)
get_repository = get_held
