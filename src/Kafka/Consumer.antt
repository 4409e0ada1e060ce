-- ===== src/Kafka/Consumer.antt =====
-- consumer.py of the Kafka adapter: `KafkaConsumer` and its methods. What `async for msg in
-- self._consumer` yields is a list of arrivals, as the handler may run other methods of the consumer
-- and other tasks may call `close` while the loop waits.
use openframe_adapters.Prelude.{Bool, true, false, Option, none, some, List, [], ◌∷◌, if◌then◌else◌}
use openframe_adapters.Effect.{
  Outcome, ok, raised, Action, ◌>>=◌, ◌>>◌, pure, raise, gets, modify, catch, finally,
}
use openframe_adapters.Effect.Errors.{
  Failure, outside, unbound_local_error, connection_error, configuration_error, is_exception,
  PluginHealth, literal, ready, failed,
}
use openframe_adapters.Effect.Objects.{call, update, ignoring}
use openframe_adapters.Effect.Iteration.{Arrival, delivers, breaks}
use openframe_adapters.Kafka.Driver.{
  Driver, KafkaSettings, consumer_args, kafka_connection_error, kafka_error,
}
use openframe_adapters.Kafka.Producer.{catches, failure}

pub record Consumer (C : Type 0) : Type 0 where
  pub consumer : Option C
  pub running : Bool
  pub initialized : Bool

-- What `__init__` sets.
abbrev pub fresh_consumer : {C : Type 0} → Consumer C
fresh_consumer = record { consumer = none; running = false; initialized = false }

module _ {P C M Y S X : Type 0} (d : Driver P C M Y S X) (settings : KafkaSettings) where
  abbrev pub Act : Type 0 → Type 0
  Act A = Action (Consumer C × S) (Failure X) A

  abbrev pub stop_if : Option C → Act (Unit {0})
  stop_if none = pure tt
  stop_if (some c) = ignoring (catches d) (call (d.stop_consumer c))

  unfoldable pub close : Act (Unit {0})
  close = do
    update (λ c. record c { running = false })
    consumer ← gets (λ w. w.0.consumer)
    elim consumer [
      | none ↦ pure tt
      | some c ↦ (do stop_if (some c); update (λ c. record c { consumer = none }))
    ]

  -- `ack` commits; it does not look at its message.
  unfoldable pub ack : Act (Unit {0})
  ack = do
    consumer ← gets (λ w. w.0.consumer)
    elim consumer [ none ↦ pure tt | some c ↦ ignoring (catches d) (call (d.commit c)) ]

  -- `nack` only logs.
  unfoldable pub nack : {T : Type 0} → T → Act (Unit {0})
  nack message = pure tt

  abbrev pub reset_and_raise : Failure X → Act (Unit {0})
  reset_and_raise e = do update (λ c. record c { consumer = none }); raise e

  -- The `except` clauses around the start of the consumer, in order.
  abbrev pub connect_failed : Failure X → Act (Unit {0})
  connect_failed (outside x) =
      if d.isinstance x kafka_connection_error
      then reset_and_raise (failure settings connection_error "subscribe" (some x))
      else if d.isinstance x kafka_error
      then reset_and_raise (failure settings configuration_error "subscribe" none)
      else raise (outside x)
  connect_failed e = raise e

  -- The first `try` of `subscribe`.
  unfoldable pub connect : Act (Unit {0})
  connect =
      catch
        (do
          c ← call (d.new_consumer settings.kafka_topic (consumer_args settings))
          update (λ s. record s { consumer = some c })
          call (d.start_consumer c)
          update (λ s. record s { running = true }))
        connect_failed

  -- The `finally` of `subscribe`.
  unfoldable pub tear_down : Act (Unit {0})
  tear_down = do
    consumer ← gets (λ w. w.0.consumer)
    stop_if consumer
    update (λ c. record c { consumer = none; running = false })

  unfoldable pub initialize : Act (Unit {0})
  initialize = update (λ c. record c { initialized = true })

  unfoldable pub shutdown : Act (Unit {0})
  shutdown = do update (λ c. record c { initialized = false }); close

  unfoldable pub health : Act (PluginHealth X)
  health w =
      if w.0.initialized
      then (ok (record { status = ready; message = literal "" }), w)
      else (ok (record { status = failed; message = literal "not initialized" }), w)

  -- `deserialise` is the hook `_deserialise`, `handler` the caller's.
  module _ {T : Type 0} (deserialise : Y → Outcome X T) (handler : T → Act (Unit {0})) where
    -- The `except Exception` of one round: its call of `nack` reads the local variable `message`,
    -- which Python refuses where no round has assigned it yet.
    unfoldable pub round_failed : Option T → Failure X → Act (Unit {0})
    round_failed bound e =
        if is_exception (catches d) e
        then elim bound [ none ↦ raise unbound_local_error | some message ↦ nack message ]
        else raise e

    -- One round of the loop, once the message is there and the consumer runs. It takes and returns
    -- what the variable `message` is bound to.
    unfoldable pub settle : Option T → M → Act (Option T)
    settle bound msg = elim (deserialise (d.payload msg)) [
      | raised x ↦ (do round_failed bound (outside x); pure bound)
      | ok message ↦ (do
        catch (do call (d.attach msg); finally (handler message) (call d.detach); ack)
            (round_failed (some message))
        pure (some message))
    ]

    abbrev pub interrupted : Bool → Act (Unit {0})
    interrupted true = close
    interrupted false = pure tt

    -- The message loop.
    unfoldable pub consume : Option T → List (Arrival M X) → Act (Unit {0})
    consume bound [] = pure tt
    consume bound (breaks closed x ∷ _) = do interrupted closed; raise (outside x)
    consume bound (delivers closed msg ∷ rest) = do
      interrupted closed
      modify (λ w. (w.0, d.hand_over msg w.1))
      running ← gets (λ w. w.0.running)
      elim running [ false ↦ pure tt | true ↦ (do next ← settle bound msg; consume next rest) ]

    unfoldable pub subscribe : List (Arrival M X) → Act (Unit {0})
    subscribe arrivals = do connect; finally (consume none arrivals) tear_down
