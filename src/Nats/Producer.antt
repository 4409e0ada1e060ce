-- ===== src/Nats/Producer.antt =====
-- producer.py of the NATS adapter: `NatsProducer` as its client and its JetStream context, and its
-- methods over the producer and the world.
use openframe_adapters.Prelude.{Option, none, some, List, [], ◌∷◌, String, if◌then◌else◌}
use openframe_adapters.Effect.{
  Outcome, ok, raised, Action, ◌>>=◌, ◌>>◌, pure, raise, gets, modify, catch, finally,
}
use openframe_adapters.Effect.Errors.{
  Failure, outside, runtime_error, connection_error, timeout_error, configuration_error,
  is_exception, PluginHealth, literal, ready, failed,
}
use openframe_adapters.Effect.Objects.{call, hook}
use openframe_adapters.Nats.Driver.{Driver, NatsSettings, asyncio_timeout, no_servers, nats_error}
use openframe_adapters.Nats.Errors.{catches, failure, wrap_nats, connect_args, ensure_stream}

-- `_nc` and `_js`
pub record Producer (N J : Type 0) : Type 0 where
  pub nc : Option N
  pub js : Option J

abbrev pub stopped_producer : {N J : Type 0} → Producer N J
stopped_producer = record { nc = none; js = none }

module _ {N J B M Y S X : Type 0} (d : Driver N J B M Y S X) (settings : NatsSettings) where
  abbrev pub reset_and_raise : Failure X → Action (Producer N J × S) (Failure X) (Unit {0})
  reset_and_raise e w = (raised e, (stopped_producer, w.1))

  -- The `except` clauses of `start`, in order; what none of them names passes with no reset.
  abbrev pub start_failed : Failure X → Action (Producer N J × S) (Failure X) (Unit {0})
  start_failed (outside x) =
      if d.isinstance x asyncio_timeout
      then reset_and_raise (failure d settings timeout_error "start" (some x))
      else if d.isinstance x no_servers
      then reset_and_raise (failure d settings connection_error "start" (some x))
      else if d.isinstance x nats_error
      then reset_and_raise (failure d settings configuration_error "start" none)
      else raise (outside x)
  start_failed e = raise e

  unfoldable pub start : Action (Producer N J × S) (Failure X) (Unit {0})
  start =
      catch
        (do
          nc ← call (d.connect (connect_args settings))
          modify (λ w. (record w.0 { nc = some nc }, w.1))
          modify (λ w. (record w.0 { js = some (d.jetstream nc) }, w.1))
          ensure_stream d settings (d.jetstream nc))
        start_failed

  -- `close`; `finally` resets both, also where closing raised.
  unfoldable pub close : Action (Producer N J × S) (Failure X) (Unit {0})
  close = do
    nc ← gets (λ w. w.0.nc)
    elim nc [
      | none ↦ pure tt
      | some c ↦
          finally
            (catch (call (d.close c))
              (λ e. if is_exception (catches d) e then pure tt else raise e))
            (modify (λ w. (stopped_producer, w.1)))
    ]

  -- `initialize` and `shutdown` are aliases.
  unfoldable pub initialize : Action (Producer N J × S) (Failure X) (Unit {0})
  initialize = start

  unfoldable pub shutdown : Action (Producer N J × S) (Failure X) (Unit {0})
  shutdown = close

  unfoldable pub health : Action (Producer N J × S) (Failure X) (PluginHealth X)
  health w = elim w.0.js [
    | some j ↦ (ok (record { status = ready; message = literal "" }), w)
    | none ↦ (ok (record { status = failed; message = literal "producer not started" }), w)
  ]

  -- The `except` clauses of `publish` and `publish_batch`.
  abbrev pub publish_failed :
      {A : Type 0} → String → Failure X → Action (Producer N J × S) (Failure X) A
  publish_failed op (outside x) =
      if d.isinstance x asyncio_timeout
      then raise (failure d settings timeout_error op (some x))
      else if d.isinstance x nats_error
      then raise (wrap_nats d settings x op)
      else raise (outside x)
  publish_failed op e = raise e

  -- `serialise` is the hook `_serialise`.
  module _ {T : Type 0} (serialise : T → Outcome X Y) where
    -- Serialise and send one message.
    unfoldable pub send : J → T → Action (Producer N J × S) (Failure X) (Unit {0})
    send j message = do
      value ← hook (serialise message)
      call (d.publish j settings.nats_subject value)

    unfoldable pub publish : T → Action (Producer N J × S) (Failure X) (Unit {0})
    publish message w = elim w.0.js [
      | none ↦ raise runtime_error w
      | some j ↦
          (do
            value ← hook (serialise message)
            catch (call (d.publish j settings.nats_subject value)) (publish_failed "publish"))
            w
    ]

    -- The loop of `publish_batch`.
    unfoldable pub publish_each : J → List T → Action (Producer N J × S) (Failure X) (Unit {0})
    publish_each j [] = pure tt
    publish_each j (message ∷ messages) = do send j message; publish_each j messages

    unfoldable pub publish_batch : List T → Action (Producer N J × S) (Failure X) (Unit {0})
    publish_batch messages w = elim w.0.js [
      | none ↦ raise runtime_error w
      | some j ↦ catch (publish_each j messages) (publish_failed "publish_batch") w
    ]
