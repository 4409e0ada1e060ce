-- ===== src/Nats/Consumer.antt =====
-- consumer.py of the NATS adapter: `NatsConsumer` and its methods. What `async for msg in
-- self._sub.messages` yields is a list of arrivals: while the loop waits for each, other tasks may
-- call `close`, and the handler may, since it acts on the consumer too.
use openframe_adapters.Prelude.{
  Bool, true, false, Option, none, some, List, [], ◌∷◌, eq_text, codes, if◌then◌else◌,
}
use openframe_adapters.Effect.{Outcome, ok, Action, ◌>>=◌, ◌>>◌, pure, raise, gets, catch, finally}
use openframe_adapters.Effect.Errors.{
  Failure, outside, connection_error, configuration_error, is_exception, PluginHealth, literal,
  ready, failed,
}
use openframe_adapters.Effect.Objects.{call, hook, update, ignoring}
use openframe_adapters.Effect.Iteration.{Arrival, delivers, breaks}
use openframe_adapters.Nats.Driver.{Driver, NatsSettings, ConsumerConfig, no_servers, nats_error}
use openframe_adapters.Nats.Errors.{catches, failure, connect_args, ensure_stream}

pub record Consumer (N J B : Type 0) : Type 0 where
  pub nc : Option N
  pub js : Option J
  pub sub : Option B
  pub running : Bool
  pub initialized : Bool

-- What `__init__` sets.
abbrev pub fresh_consumer : {N J B : Type 0} → Consumer N J B
fresh_consumer = record { nc = none; js = none; sub = none; running = false; initialized = false }

unfoldable pub consumer_config : NatsSettings → ConsumerConfig
consumer_config settings = record {
  durable_name = settings.nats_durable_name;
  ack_wait = settings.nats_ack_wait_seconds;
  max_deliver = settings.nats_max_deliver;
  deliver_new = eq_text settings.nats_deliver_policy (codes "new");
}

module _ {N J B M Y S X : Type 0} (d : Driver N J B M Y S X) (settings : NatsSettings) where
  abbrev pub Act : Type 0 → Type 0
  Act A = Action (Consumer N J B × S) (Failure X) A

  abbrev pub unsubscribe_if : Option B → Act (Unit {0})
  unsubscribe_if none = pure tt
  unsubscribe_if (some b) = ignoring (catches d) (call (d.unsubscribe b))

  abbrev pub close_if : Option N → Act (Unit {0})
  close_if none = pure tt
  close_if (some n) = ignoring (catches d) (call (d.close n))

  -- `close`: the subscription and the context stay for the `finally` of `subscribe`.
  unfoldable pub close : Act (Unit {0})
  close = do
    update (λ c. record c { running = false })
    sub ← gets (λ w. w.0.sub)
    unsubscribe_if sub
    nc ← gets (λ w. w.0.nc)
    elim nc [
      | none ↦ pure tt
      | some n ↦ (do close_if (some n); update (λ c. record c { nc = none }))
    ]

  unfoldable pub ack : M → Act (Unit {0})
  ack message = ignoring (catches d) (call (d.ack message))

  unfoldable pub nack : M → Act (Unit {0})
  nack message = ignoring (catches d) (call (d.nak message))

  -- The `except` clauses of `subscribe`, in order.
  abbrev pub connect_failed : Failure X → Act (Unit {0})
  connect_failed (outside x) =
      if d.isinstance x no_servers
      then (do
        update (λ c. record c { nc = none; js = none; sub = none })
        raise (failure d settings connection_error "subscribe" (some x)))
      else if d.isinstance x nats_error
      then (do
        update (λ c. record c { nc = none; js = none; sub = none })
        raise (failure d settings configuration_error "subscribe" none))
      else raise (outside x)
  connect_failed e = raise e

  -- The first `try` of `subscribe`.
  unfoldable pub connect : Act (Unit {0})
  connect =
      catch
        (do
          nc ← call (d.connect (connect_args settings))
          update (λ c. record c { nc = some nc })
          update (λ c. record c { js = some (d.jetstream nc) })
          ensure_stream d settings (d.jetstream nc)
          sub ← call (
              d.subscribe (d.jetstream nc) settings.nats_subject settings.nats_stream
                (consumer_config settings))
          update (λ c. record c { sub = some sub; running = true }))
        connect_failed

  -- The `finally` of `subscribe`.
  unfoldable pub tear_down : Act (Unit {0})
  tear_down = do
    sub ← gets (λ w. w.0.sub)
    unsubscribe_if sub
    nc ← gets (λ w. w.0.nc)
    close_if nc
    update (λ c. record c { nc = none; js = none; sub = none; running = false })

  -- `initialize`, `shutdown` and `health`
  unfoldable pub initialize : Act (Unit {0})
  initialize = update (λ c. record c { initialized = true })

  unfoldable pub shutdown : Act (Unit {0})
  shutdown = do update (λ c. record c { initialized = false }); close

  unfoldable pub health : Act (PluginHealth X)
  health w =
      if w.0.initialized
      then (ok (record { status = ready; message = literal "" }), w)
      else (ok (record { status = failed; message = literal "not initialized" }), w)

  -- `deserialise` is the hook `_deserialise`, `handler` the caller's.
  module _ {T : Type 0} (deserialise : Y → Outcome X T) (handler : T → Act (Unit {0})) where
    -- Deserialise a message and run the handler in the context of its headers.
    unfoldable pub process : M → Act (Unit {0})
    process msg = do
      message ← hook (deserialise (d.payload msg))
      call (d.attach msg)
      finally (handler message) (call d.detach)

    -- One round of the loop, once the message is there and the consumer runs.
    unfoldable pub settle : M → Act (Unit {0})
    settle msg =
        catch (process msg >> ack msg)
          (λ e. if is_exception (catches d) e then nack msg else raise e)

    abbrev pub interrupted : Bool → Act (Unit {0})
    interrupted true = close
    interrupted false = pure tt

    -- The message loop.
    unfoldable pub consume : List (Arrival M X) → Act (Unit {0})
    consume [] = pure tt
    consume (breaks closed x ∷ _) = do interrupted closed; raise (outside x)
    consume (delivers closed msg ∷ rest) = do
      interrupted closed
      running ← gets (λ w. w.0.running)
      elim running [ false ↦ pure tt | true ↦ (do settle msg; consume rest) ]

    unfoldable pub subscribe : List (Arrival M X) → Act (Unit {0})
    subscribe arrivals = do connect; finally (consume arrivals) tear_down
