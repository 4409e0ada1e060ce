-- ===== src/Sql/Plugin.antt =====
-- plugin.py of the adapters of MySQL, MariaDB, CockroachDB, Cassandra, Qdrant and Milvus, which differ in
-- the classes and the names alone: a plugin with a table (or a collection) holds a repository, one without
-- only opens the pool (or the client).
use openframe_adapters.Prelude.{Bool, Option, none, some, Text, [], ◌∷◌, if◌then◌else◌, String}
use openframe_adapters.Effect.{Outcome, Action, ◌>>=◌, ◌>>◌, pure, raise, gets, catch}
use openframe_adapters.Effect.Errors.{
  Failure, adapter_error, connection_error, is_exception, PluginHealth, literal, plugin_status,
  str_of, ready, failed, is_ready,
}
use openframe_adapters.Lifecycle.{Slot, on_world, hold, initialize_with, shutdown_with, get_held}

-- What the plugin uses of its adapter, for its own settings, table and class: pools `C` and
-- repositories `R` in a process `W`, and the name in its errors.
pub record Backend (C W R X : Type 0) : Type 0 where
  pub name : String
  pub table : Text
  pub catches : X → Bool
  pub get_pool : Action W (Failure X) C
  pub select_one : C → Action W (Failure X) (Unit {0})
  pub new_repository : Outcome (Failure X) R
  pub repository_health : R → Action W (Failure X) (PluginHealth X)
  pub repository_close : R → Action W (Failure X) (Unit {0})

module _ {C W R X : Type 0} (self : Backend C W R X) where
  abbrev pub Session : Type 0
  Session = Slot R × W

  -- What `initialize` raises where the database does not answer.
  abbrev pub unreachable : Failure X
  unreachable = adapter_error (record {
    error_class = connection_error;
    adapter = self.name;
    operation = "initialize";
    cause = none;
  })

  -- Build the repository and ask for its health.
  unfoldable pub connect_table : Action Session (Failure X) (Unit {0})
  connect_table = do
    repo ← λ s. (self.new_repository, s)
    hold repo
    health ← on_world (self.repository_health repo)
    if is_ready health.status then pure tt else raise unreachable

  -- Without a table: `SELECT 1` on the pool.
  unfoldable pub connect_pool : C → Action Session (Failure X) (Unit {0})
  connect_pool pool =
      catch (on_world (self.select_one pool))
        (λ e. if is_exception self.catches e then raise unreachable else raise e)

  -- The body of the `try` in `initialize`.
  unfoldable pub connect : Action Session (Failure X) (Unit {0})
  unfolding connect_table connect_pool
  connect = do
    pool ← on_world self.get_pool
    elim self.table [ [] ↦ connect_pool pool | c ∷ cs ↦ connect_table ]

  unfoldable pub initialize : Action Session (Failure X) (Unit {0})
  unfolding connect
  initialize = initialize_with self.catches connect

  unfoldable pub shutdown : Action Session (Failure X) (Unit {0})
  shutdown = shutdown_with self.catches self.repository_close

  abbrev unhealthy : Failure X → Action Session (Failure X) (PluginHealth X)
  unhealthy e =
      if is_exception self.catches e
      then pure (record { status = failed; message = str_of e })
      else raise e

  -- The pool where there is no repository.
  unfoldable pub pool_health : Action Session (Failure X) (PluginHealth X)
  pool_health =
      catch
        (do
          pool ← on_world self.get_pool
          on_world (self.select_one pool)
          pure (record { status = ready; message = literal "" }))
        unhealthy

  abbrev pub held_health : Option R → Action Session (Failure X) (PluginHealth X)
  held_health (some r) = on_world (self.repository_health r)
  held_health none = pool_health

  unfoldable pub health : Action Session (Failure X) (PluginHealth X)
  unfolding pool_health
  health =
      catch
        (do
          slot ← gets (λ s. s.0)
          if is_ready slot.status
              then held_health slot.held
              else pure (record { status = failed; message = plugin_status slot.status }))
        unhealthy

-- Both refusals of `get_repository` are a `RuntimeError`.
unfoldable pub get_repository : {R X : Type 0} → Slot R → Outcome (Failure X) R
get_repository = get_held
