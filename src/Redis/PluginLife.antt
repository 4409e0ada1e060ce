-- ===== src/Redis/PluginLife.antt =====
-- The life of `RedisPlugin`: the getter, the status, and the client that `shutdown` leaves behind.
use openframe_adapters.Prelude.{◌≡◌, Bool, false, some, none, arith, List, if◌then◌else◌}
use openframe_adapters.Effect.{ok, raised}
use openframe_adapters.Effect.Errors.{
  Failure, ready, failed, stopped, initialized, is_exception, PluginStatus,
}
use openframe_adapters.Dict.{lookup}
use openframe_adapters.Lifecycle.{fresh, shutdown_with}
use openframe_adapters.Lifecycle.Laws.{
  Call, Holds, run, is_up, returned, returned-get_held, initialize_status,
}
use openframe_adapters.Redis.Driver.{Driver}
use openframe_adapters.Redis.Connection.{key_eq, World, cache_key}
use openframe_adapters.Redis.Repository
use openframe_adapters.Redis.Cache.{close_forgets}
use openframe_adapters.Redis.Plugin.{
  Repo, Session, catches, connect, initialize, shutdown, get_repository,
}

module _ {C S X T : Type 0} (d : Driver C S X) (plugin : Repo T X) where
  connect-Holds : Holds {W = World C S} (connect d plugin)
  unfolding connect
  connect-Holds = record { holds = λ s s' h. (plugin, ground arith); keeps = λ s. ground arith }

  -- Calls of `initialize`, `shutdown` and `health`, whatever each returns or raises.
  unfoldable pub calls : List Call → Session C S X T → Session C S X T
  calls =
      run (catches d) (connect d plugin) (λ r. Repository.close d r.settings)
        (λ r. Repository.health d r.settings)

  -- Whether the last `initialize` or `shutdown` was an `initialize` that returned.
  unfoldable pub up_after : List Call → Session C S X T → Bool
  up_after cs s =
      is_up (catches d) (connect d plugin) (λ r. Repository.close d r.settings)
        (λ r. Repository.health d r.settings) cs false s

  -- From a new Redis plugin, after any calls of `initialize`, `shutdown` and `health`,
  -- `get_repository` returns exactly if the last `initialize` or `shutdown` was an `initialize`
  -- that returned.
  pub returned-get_repository :
      (cs : List Call) (w : World C S)
      → returned (get_repository {X = X} (calls cs (fresh, w)).0) ≡ up_after cs (fresh, w)
  unfolding get_repository calls up_after
  returned-get_repository cs w =
      returned-get_held (catches d) (connect d plugin) (λ r. Repository.close d r.settings)
        (λ r. Repository.health d r.settings) connect-Holds cs (fresh, w) (λ p. absurd (cc))

  -- `initialize` of the Redis plugin ends READY if it returns and FAILED if it raises; only what
  -- `except Exception` passes by leaves INITIALIZED.
  pub initialize_ends :
      (s : Session C S X T)
      → (initialize d plugin s).1.0.status ≡ elim (initialize d plugin s).0 [
        | ok _ ↦ ready
        | raised e ↦ if is_exception (catches d) e then failed else initialized
      ]
  unfolding initialize
  initialize_ends s =
      initialize_status (catches d) (connect d plugin) (λ r. Repository.close d r.settings)
        (λ r. Repository.health d r.settings) connect-Holds s

  -- `shutdown` of a plugin that holds its repository ends STOPPED with no client of its key in the
  -- cache, and raises only what `except Exception` passes by, whatever closing the client does.
  pub shutdown_releases :
      (w : World C S) (st : PluginStatus)
      → let (r, s) = shutdown {T = T} d (record { held = some plugin; status = st }, w) in
        (s.0.status ≡ stopped)
        × (lookup (cache_key plugin.settings) s.1.client_cache ≡ none)
        × ((e : Failure X) → r ≡ raised e → is_exception (catches d) e ≡ false)
  unfolding shutdown shutdown_with
  shutdown_releases w st =
      (ground arith, ground (arith, close_forgets d plugin.settings w), λ e h. ground arith)
