-- ===== src/Kafka/Producer.antt =====
-- producer.py of the Kafka adapter: `KafkaProducer`, whose `_producer` is the object, and its methods.
use openframe_adapters.Prelude.{Bool, Option, none, some, List, String, if◌then◌else◌}
use openframe_adapters.Effect.{
  Outcome, ok, raised, Action, ◌>>=◌, ◌>>◌, pure, raise, gets, catch, finally,
}
use openframe_adapters.Effect.Errors.{
  ErrorClass, Failure, adapter_error, outside, runtime_error, connection_error, timeout_error,
  configuration_error, query_error, PluginHealth, literal, ready, failed,
}
use openframe_adapters.Effect.Objects.{call, hook, update, ignoring}
use openframe_adapters.Effect.Loops.{for_each}
use openframe_adapters.Kafka.Driver.{
  Driver, KafkaSettings, producer_args, asyncio_timeout, kafka_connection_error, kafka_error,
  builtin_exception,
}

module _ {P C M Y S X : Type 0} (d : Driver P C M Y S X) where
  abbrev pub catches : X → Bool
  catches x = d.isinstance x builtin_exception

abbrev pub failure : {X : Type 0} → KafkaSettings → ErrorClass → String → Option X → Failure X
failure settings c op cause =
    adapter_error
      (record { error_class = c; adapter = settings.adapter_name; operation = op; cause = cause })

module _ {P C M Y S X : Type 0} (d : Driver P C M Y S X) (settings : KafkaSettings) where
  abbrev pub reset_and_raise : Failure X → Action (Option P × S) (Failure X) (Unit {0})
  reset_and_raise e w = (raised e, (none, w.1))

  -- The `except` clauses of `start`, in order; what none of them names passes with no reset.
  abbrev pub start_failed : Failure X → Action (Option P × S) (Failure X) (Unit {0})
  start_failed (outside x) =
      if d.isinstance x asyncio_timeout
      then reset_and_raise (failure settings timeout_error "start" (some x))
      else if d.isinstance x kafka_connection_error
      then reset_and_raise (failure settings connection_error "start" (some x))
      else if d.isinstance x kafka_error
      then reset_and_raise (failure settings configuration_error "start" none)
      else raise (outside x)
  start_failed e = raise e

  unfoldable pub start : Action (Option P × S) (Failure X) (Unit {0})
  start =
      catch
        (do
          p ← call (d.new_producer (producer_args settings))
          update (λ _. some p)
          call (d.start_producer p))
        start_failed

  unfoldable pub close : Action (Option P × S) (Failure X) (Unit {0})
  close = do
    producer ← gets (λ w. w.0)
    elim producer [
      | none ↦ pure tt
      | some p ↦ finally (ignoring (catches d) (call (d.stop_producer p))) (update (λ _. none))
    ]

  -- `initialize` and `shutdown` are aliases.
  unfoldable pub initialize : Action (Option P × S) (Failure X) (Unit {0})
  initialize = start

  unfoldable pub shutdown : Action (Option P × S) (Failure X) (Unit {0})
  shutdown = close

  unfoldable pub health : Action (Option P × S) (Failure X) (PluginHealth X)
  health w = elim w.0 [
    | some p ↦ (ok (record { status = ready; message = literal "" }), w)
    | none ↦ (ok (record { status = failed; message = literal "producer not started" }), w)
  ]

  -- The `except` clauses of `publish` and `publish_batch`.
  abbrev pub send_failed : String → Failure X → Action (Option P × S) (Failure X) (Unit {0})
  send_failed op (outside x) =
      if d.isinstance x asyncio_timeout
      then raise (failure settings timeout_error op (some x))
      else if d.isinstance x kafka_error
      then raise (failure settings query_error op (some x))
      else raise (outside x)
  send_failed op e = raise e

  -- `serialise` is the hook `_serialise`.
  module _ {T : Type 0} (serialise : T → Outcome X Y) where
    -- Serialise and send one message.
    unfoldable pub send : P → T → Action (Option P × S) (Failure X) (Unit {0})
    send p message = do
      value ← hook (serialise message)
      call (d.send_and_wait p settings.kafka_topic value)

    unfoldable pub publish : T → Action (Option P × S) (Failure X) (Unit {0})
    publish message w = elim w.0 [
      | none ↦ raise runtime_error w
      | some p ↦
          (do
            value ← hook (serialise message)
            catch (call (d.send_and_wait p settings.kafka_topic value)) (send_failed "publish"))
            w
    ]

    unfoldable pub publish_batch : List T → Action (Option P × S) (Failure X) (Unit {0})
    publish_batch messages w = elim w.0 [
      | none ↦ raise runtime_error w
      | some p ↦
          catch (for_each (send p) messages >> call (d.flush p)) (send_failed "publish_batch") w
    ]
