-- ===== src/Lifecycle/Single.antt =====
-- plugin.py of the adapters whose plugin always holds a repository (DynamoDB, MongoDB, ChromaDB and
-- FalkorDB), which differ in the classes and the name.
use openframe_adapters.Prelude.{if◌then◌else◌, Bool, none, some, String}
use openframe_adapters.Effect.{Outcome, Action, ◌>>=◌, ◌>>◌, pure, gets, modify, catch, raise}
use openframe_adapters.Effect.Errors.{
  Failure, adapter_error, connection_error, is_exception, PluginHealth, literal, plugin_status,
  str_of, failed, is_ready,
}
use openframe_adapters.Lifecycle.{Slot, on_world, hold, initialize_with, shutdown_with, health_with}
use openframe_adapters.Lifecycle.Checks.{checked}

-- What the plugin uses of its adapter, for its own settings and class: repositories `R` in a process
-- `W`, and the name in its errors.
pub record Backend (W R X : Type 0) : Type 0 where
  pub name : String
  pub catches : X → Bool
  -- Open the client and drop it; it stays in the cache.
  pub open_client : Action W (Failure X) (Unit {0})
  pub new_repository : Outcome (Failure X) R
  -- What the constructor sets of the attributes that the process `W` keeps.
  pub reset : W → W
  -- What is still done where the health is `READY`: `_ensure_ready` of FalkorDB, and nothing else.
  pub make_ready : R → Action W (Failure X) (Unit {0})
  pub repository_health : R → Action W (Failure X) (PluginHealth X)
  pub repository_close : R → Action W (Failure X) (Unit {0})

module _ {W R X : Type 0} (self : Backend W R X) where
  abbrev pub Session : Type 0
  Session = Slot R × W

  -- What `initialize` raises where the database does not answer.
  abbrev pub unreachable : Failure X
  unreachable = adapter_error (record {
    error_class = connection_error;
    adapter = self.name;
    operation = "initialize";
    cause = none;
  })

  -- The body of the `try` in `initialize`.
  unfoldable pub connect : Action Session (Failure X) (Unit {0})
  unfolding checked
  connect = do
    on_world self.open_client
    repo ← λ s. (self.new_repository, s)
    on_world (modify self.reset)
    hold repo
    checked unreachable (on_world (self.repository_health repo))
    on_world (self.make_ready repo)

  unfoldable pub initialize : Action Session (Failure X) (Unit {0})
  unfolding connect
  initialize = initialize_with self.catches connect

  unfoldable pub shutdown : Action Session (Failure X) (Unit {0})
  shutdown = shutdown_with self.catches self.repository_close

  -- `health` where one test covers the status and the repository
  unfoldable pub health : Action Session (Failure X) (PluginHealth X)
  health = health_with self.catches self.repository_health

  -- `health` where the status is tested first, and the repository by itself
  unfoldable pub health_by_status : Action Session (Failure X) (PluginHealth X)
  health_by_status =
      catch
        (do
          slot ← gets (λ s. s.0)
          if is_ready slot.status
              then elim slot.held [
                | none ↦
                    pure
                      (record { status = failed; message = literal "Repository not initialized" })
                | some r ↦ on_world (self.repository_health r)
              ]
              else pure (record { status = failed; message = plugin_status slot.status }))
        (λ e.
          if is_exception self.catches e
          then pure (record { status = failed; message = str_of e })
          else raise e)
