-- ===== src/Lifecycle/Checks.antt =====
-- `health` and `initialize` of the repositories, which differ in the call that they make: the
-- database is asked, and what that raises is the message of a failed health.
use openframe_adapters.Prelude.{Bool, if◌then◌else◌}
use openframe_adapters.Effect.{Action, ◌>>=◌, ◌>>◌, pure, raise, catch}
use openframe_adapters.Effect.Errors.{
  Failure, is_exception, PluginHealth, literal, str_of, ready, failed, is_ready,
}

module _ {W X : Type 0} where
  -- `catches` says which outside exceptions `except Exception` catches.
  unfoldable pub probed :
      (X → Bool) → Action W (Failure X) (Unit {0}) → Action W (Failure X) (PluginHealth X)
  probed catches ask =
      catch (do ask; pure (record { status = ready; message = literal "" }))
        (λ e.
          if is_exception catches e
          then pure (record { status = failed; message = str_of e })
          else raise e)

  -- `refused` is raised where the health is not `READY`.
  unfoldable pub checked :
      Failure X → Action W (Failure X) (PluginHealth X) → Action W (Failure X) (Unit {0})
  checked refused health = do h ← health; if is_ready h.status then pure tt else raise refused
