-- ===== src/Lifecycle/Defs.antt =====
-- The part that every `*Plugin` class writes alike: the pair of `_status` and the held repository or
-- producer, and `initialize`, `shutdown`, `health` and the getter around what a plugin does itself.
use openframe_adapters.Prelude.{Bool, Option, none, some, if◌then◌else◌}
use openframe_adapters.Effect.{
  Outcome, ok, raised, Action, ◌>>=◌, ◌>>◌, pure, raise, gets, catch, finally,
}
use openframe_adapters.Effect.Errors.{
  Failure, runtime_error, is_exception, PluginStatus, initialized, ready, failed, stopping, stopped,
  registered, PluginHealth, plugin_status, str_of, is_ready,
}

-- `_repo` or `_producer`, and `_status`
pub record Slot (R : Type 0) : Type 0 where
  pub held : Option R
  pub status : PluginStatus

-- What `__init__` sets.
abbrev pub fresh : {R : Type 0} → Slot R
fresh = record { held = none; status = registered }

module _ {R W X : Type 0} where
  abbrev pub on_world : {A : Type 0} → Action W (Failure X) A → Action (Slot R × W) (Failure X) A
  on_world m s = let (r, w) = m s.1 in (r, (s.0, w))

  abbrev pub set_status : PluginStatus → Action (Slot R × W) (Failure X) (Unit {0})
  set_status st s = (ok tt, (record s.0 { status = st }, s.1))

  abbrev pub hold : R → Action (Slot R × W) (Failure X) (Unit {0})
  hold r s = (ok tt, (record s.0 { held = some r }, s.1))

  -- `catches` says which outside exceptions `except Exception` catches.
  module _ (catches : X → Bool) where
    unfoldable pub initialize_with :
        Action (Slot R × W) (Failure X) (Unit {0}) → Action (Slot R × W) (Failure X) (Unit {0})
    initialize_with body =
        set_status initialized
        >> catch (body >> set_status ready)
            (λ e. if is_exception catches e then (set_status failed >> raise e) else raise e)

    unfoldable pub shutdown_with :
        (R → Action W (Failure X) (Unit {0})) → Action (Slot R × W) (Failure X) (Unit {0})
    shutdown_with close = do
      set_status stopping
      finally
          (catch
            (do
              slot ← gets (λ s. s.0)
              elim slot.held [ none ↦ pure tt | some r ↦ on_world (close r) ])
            (λ e. if is_exception catches e then pure tt else raise e))
          (set_status stopped)

    unfoldable pub health_with :
        (R → Action W (Failure X) (PluginHealth X))
        → Action (Slot R × W) (Failure X) (PluginHealth X)
    health_with check =
        catch
          (do
            slot ← gets (λ s. s.0)
            elim slot.held [
              | none ↦ pure (record { status = failed; message = plugin_status slot.status })
              | some r ↦
                  if is_ready slot.status
                  then on_world (check r)
                  else pure (record { status = failed; message = plugin_status slot.status })
            ])
          (λ e.
            if is_exception catches e
            then pure (record { status = failed; message = str_of e })
            else raise e)

-- `get_repository` and `get_producer`
unfoldable pub get_held : {R X : Type 0} → Slot R → Outcome (Failure X) R
get_held s = elim s.held [
  | none ↦ raised runtime_error
  | some r ↦ if is_ready s.status then ok r else raised runtime_error
]
