-- ===== src/Rabbitmq/Producer.antt =====
-- producer.py of the RabbitMQ adapter: `RabbitmqProducer` and its methods.
use openframe_adapters.Prelude.{Bool, Option, none, some, List, if◌then◌else◌, String}
use openframe_adapters.Effect.{
  Outcome, raised, Action, ◌>>=◌, ◌>>◌, pure, raise, gets, catch, finally,
}
use openframe_adapters.Effect.Errors.{
  Failure, outside, runtime_error, timeout_error, is_exception, PluginHealth, literal, str_of,
  ready, failed,
}
use openframe_adapters.Effect.Objects.{call, hook, update, ignoring}
use openframe_adapters.Effect.Loops.{for_each}
use openframe_adapters.Rabbitmq.Driver.{Driver, RabbitmqSettings, asyncio_timeout}
use openframe_adapters.Rabbitmq.Errors.{catches, failure, is_listed, wrap_rabbitmq}

pub record Producer (N H : Type 0) : Type 0 where
  pub connection : Option N
  pub channel : Option H

-- What `__init__` sets.
abbrev pub stopped_producer : {N H : Type 0} → Producer N H
stopped_producer = record { connection = none; channel = none }

module _ {N H Q I M Y S X : Type 0} (d : Driver N H Q I M Y S X) (settings : RabbitmqSettings) where
  abbrev pub Act : Type 0 → Type 0
  Act A = Action (Producer N H × S) (Failure X) A

  abbrev pub reset_and_raise : Failure X → Act (Unit {0})
  reset_and_raise e w = (raised e, (stopped_producer, w.1))

  -- The `except` clauses of `start`, in order; what none of them names passes with no reset.
  abbrev pub start_failed : Failure X → Act (Unit {0})
  start_failed (outside x) =
      if d.isinstance x asyncio_timeout
      then reset_and_raise (failure settings timeout_error "start" (some x))
      else if is_listed d x
      then reset_and_raise (wrap_rabbitmq d settings x "start")
      else raise (outside x)
  start_failed e = raise e

  unfoldable pub start : Act (Unit {0})
  start =
      catch
        (do
          n ← call (d.connect_robust settings.rabbitmq_url settings.rabbitmq_reconnect_interval)
          update (λ p. record p { connection = some n })
          h ← call (d.channel n)
          update (λ p. record p { channel = some h }))
        start_failed

  abbrev pub drop_channel : Option H → Act (Unit {0})
  drop_channel none = pure tt
  drop_channel (some h) =
      finally (ignoring (catches d) (call (d.close_channel h)))
        (update (λ p. record p { channel = none }))

  abbrev pub drop_connection : Option N → Act (Unit {0})
  drop_connection none = pure tt
  drop_connection (some n) =
      finally (ignoring (catches d) (call (d.close_connection n)))
        (update (λ p. record p { connection = none }))

  unfoldable pub close : Act (Unit {0})
  close = do
    channel ← gets (λ w. w.0.channel)
    drop_channel channel
    connection ← gets (λ w. w.0.connection)
    drop_connection connection

  -- `initialize` and `shutdown` are aliases.
  unfoldable pub initialize : Act (Unit {0})
  initialize = start

  unfoldable pub shutdown : Act (Unit {0})
  shutdown = close

  abbrev pub not_started : PluginHealth X
  not_started = record { status = failed; message = literal "producer not started" }

  abbrev pub open_health : Bool → PluginHealth X
  open_health closed =
      if closed then not_started else record { status = ready; message = literal "" }

  unfoldable pub health : Act (PluginHealth X)
  health =
      catch
        (do
          connection ← gets (λ w. w.0.connection)
          elim connection [
            | none ↦ pure not_started
            | some n ↦ (do closed ← call (d.is_closed n); pure (open_health closed))
          ])
        (λ e.
          if is_exception (catches d) e
          then pure (record { status = failed; message = str_of e })
          else raise e)

  -- The `except` clauses of `publish` and `publish_batch`.
  abbrev pub send_failed : String → Failure X → Act (Unit {0})
  send_failed op (outside x) =
      if d.isinstance x asyncio_timeout
      then raise (failure settings timeout_error op (some x))
      else if is_listed d x
      then raise (wrap_rabbitmq d settings x op)
      else raise (outside x)
  send_failed op e = raise e

  -- `serialise` is the hook `_serialise`.
  module _ {T : Type 0} (serialise : T → Outcome X Y) where
    -- Serialise and publish one message.
    unfoldable pub send : H → T → Act (Unit {0})
    send h message = do
      body ← hook (serialise message)
      call (d.publish h body settings.rabbitmq_queue)

    unfoldable pub publish : T → Act (Unit {0})
    publish message w = elim w.0.channel [
      | none ↦ raise runtime_error w
      | some h ↦
          (do
            body ← hook (serialise message)
            catch (call (d.publish h body settings.rabbitmq_queue)) (send_failed "publish"))
            w
    ]

    unfoldable pub publish_batch : List T → Act (Unit {0})
    publish_batch messages w = elim w.0.channel [
      | none ↦ raise runtime_error w
      | some h ↦ catch (for_each (send h) messages) (send_failed "publish_batch") w
    ]
