-- ===== src/Rabbitmq/Consumer.antt =====
-- consumer.py of the RabbitMQ adapter: `RabbitmqConsumer` and its methods. What `async for message in
-- queue_iter` yields is a list of arrivals; the handler may run other methods of the consumer, and
-- other tasks may call `close` while the loop waits.
use openframe_adapters.Prelude.{Bool, true, false, Option, none, some, List, [], ◌∷◌, if◌then◌else◌}
use openframe_adapters.Effect.{Outcome, ok, Action, ◌>>=◌, ◌>>◌, pure, raise, gets, catch, finally}
use openframe_adapters.Effect.Errors.{
  Failure, outside, attribute_error, is_exception, PluginHealth, literal, ready, failed,
}
use openframe_adapters.Effect.Objects.{call, hook, update, ignoring}
use openframe_adapters.Effect.Iteration.{Arrival, delivers, breaks}
use openframe_adapters.Rabbitmq.Driver.{Driver, RabbitmqSettings}
use openframe_adapters.Rabbitmq.Errors.{catches, is_listed, wrap_rabbitmq}

pub record Consumer (N H Q M : Type 0) : Type 0 where
  pub connection : Option N
  pub channel : Option H
  pub queue : Option Q
  pub running : Bool
  pub initialized : Bool
  pub current_raw_message : Option M

-- What `__init__` sets.
abbrev pub fresh_consumer : {N H Q M : Type 0} → Consumer N H Q M
fresh_consumer = record {
  connection = none;
  channel = none;
  queue = none;
  running = false;
  initialized = false;
  current_raw_message = none;
}

module _ {N H Q I M Y S X : Type 0} (d : Driver N H Q I M Y S X) (settings : RabbitmqSettings) where
  abbrev pub Act : Type 0 → Type 0
  Act A = Action (Consumer N H Q M × S) (Failure X) A

  abbrev pub drop_channel : Option H → Act (Unit {0})
  drop_channel none = pure tt
  drop_channel (some h) =
      finally (ignoring (catches d) (call (d.close_channel h)))
        (update (λ c. record c { channel = none }))

  abbrev pub drop_connection : Option N → Act (Unit {0})
  drop_connection none = pure tt
  drop_connection (some n) =
      finally (ignoring (catches d) (call (d.close_connection n)))
        (update (λ c. record c { connection = none }))

  unfoldable pub close_connection : Act (Unit {0})
  close_connection = do
    channel ← gets (λ w. w.0.channel)
    drop_channel channel
    connection ← gets (λ w. w.0.connection)
    drop_connection connection
    update (λ c. record c { queue = none })

  unfoldable pub close : Act (Unit {0})
  unfolding close_connection
  close = do update (λ c. record c { running = false }); close_connection

  -- `ack` and `nack` answer the current raw message; neither looks at its argument.
  unfoldable pub ack : Act (Unit {0})
  ack = do
    current ← gets (λ w. w.0.current_raw_message)
    elim current [ none ↦ pure tt | some m ↦ ignoring (catches d) (call (d.ack m)) ]

  unfoldable pub nack : Act (Unit {0})
  nack = do
    current ← gets (λ w. w.0.current_raw_message)
    elim current [ none ↦ pure tt | some m ↦ ignoring (catches d) (call (d.nack m)) ]

  -- The `except` around the connection; what it does not name passes with no reset.
  abbrev pub connect_failed : Failure X → Act (Unit {0})
  connect_failed (outside x) =
      if is_listed d x
      then (do
        update (λ c. record c { connection = none; channel = none; queue = none })
        raise (wrap_rabbitmq d settings x "subscribe"))
      else raise (outside x)
  connect_failed e = raise e

  -- The first `try` of `subscribe`.
  unfoldable pub connect : Act (Unit {0})
  connect =
      catch
        (do
          n ← call (d.connect_robust settings.rabbitmq_url settings.rabbitmq_reconnect_interval)
          update (λ c. record c { connection = some n })
          h ← call (d.channel n)
          update (λ c. record c { channel = some h })
          call (d.set_qos h settings.rabbitmq_prefetch_count)
          q ← call (d.declare_queue h settings.rabbitmq_queue settings.rabbitmq_durable)
          update (λ c. record c { queue = some q }))
        connect_failed

  -- The `finally` of `subscribe`.
  unfoldable pub tear_down : Act (Unit {0})
  unfolding close_connection
  tear_down = do close_connection; update (λ c. record c { running = false })

  unfoldable pub initialize : Act (Unit {0})
  initialize = update (λ c. record c { initialized = true })

  unfoldable pub shutdown : Act (Unit {0})
  unfolding close
  shutdown = do update (λ c. record c { initialized = false }); close

  unfoldable pub health : Act (PluginHealth X)
  health w =
      if w.0.initialized
      then (ok (record { status = ready; message = literal "" }), w)
      else (ok (record { status = failed; message = literal "not initialized" }), w)

  -- `deserialise` is the hook `_deserialise`, `handler` the caller's.
  module _ {T : Type 0} (deserialise : Y → Outcome X T) (handler : T → Act (Unit {0})) where
    -- The inner `try` of a round and its `except Exception`.
    unfoldable pub settle : M → Act (Unit {0})
    settle message = do
      update (λ c. record c { current_raw_message = some message })
      catch
          (do
            payload ← hook (deserialise (d.body message))
            call (d.attach message)
            finally (handler payload) (call d.detach)
            ack)
          (λ e. if is_exception (catches d) e then nack else raise e)

    abbrev pub interrupted : Bool → Act (Unit {0})
    interrupted true = close
    interrupted false = pure tt

    -- The message loop.
    unfoldable pub consume : List (Arrival M X) → Act (Unit {0})
    consume [] = pure tt
    consume (breaks closed x ∷ _) = do interrupted closed; raise (outside x)
    consume (delivers closed message ∷ rest) = do
      interrupted closed
      running ← gets (λ w. w.0.running)
      elim running [ false ↦ pure tt | true ↦ (do settle message; consume rest) ]

    -- The `async with` of the iterator; a queue that is gone has no `iterator`.
    unfoldable pub iterate : List (Arrival M X) → Act (Unit {0})
    iterate arrivals = do
      queue ← gets (λ w. w.0.queue)
      elim queue [
        | none ↦ raise attribute_error
        | some q ↦ (do
          i ← call (d.open_iterator q)
          finally (consume arrivals) (call (d.close_iterator i)))
      ]

    unfoldable pub subscribe : List (Arrival M X) → Act (Unit {0})
    subscribe arrivals = do
      connect
      update (λ c. record c { running = true })
      finally (iterate arrivals) tear_down
