-- ===== src/Nats/Driver.antt =====
-- What the NATS adapter takes from outside: nats-py, asyncio, json and the trace propagation, as
-- one record of calls on the state `S` of the outside world; `N` are clients, `J` JetStream contexts,
-- `B` subscriptions, `M` raw messages, `Y` payloads and `X` exceptions. An awaited call stands
-- for the call inside its `asyncio.timeout` block. Also the settings of
-- packages/openframe-adapters-queue-nats/openframe/adapters/queue/nats/config.py.
use openframe_adapters.Prelude.{ℕ, Bool, Option, List, Text, String}
use openframe_adapters.Effect.{Action}

-- The exception classes that the sources name.
pub data NatsClass : Type 0 where
  asyncio_timeout nats_error no_servers connection_closed connection_draining : NatsClass
  connection_reconnecting stale_connection outbound_buffer_limit bad_request : NatsClass
  builtin_exception : NatsClass

-- Floats are counted in milliseconds.
pub record NatsSettings : Type 0 where
  pub nats_servers : Text
  pub nats_subject : Text
  pub nats_stream : Text
  pub nats_durable_name : Text
  pub nats_deliver_policy : Text
  pub nats_ack_wait_seconds : ℕ
  pub nats_max_deliver : ℕ
  pub nats_max_reconnect_attempts : ℕ
  pub nats_user : Text
  pub nats_password : Text
  pub nats_token : Text
  pub adapter_name : String

-- The keyword arguments of `nats.connect` that `start` and `subscribe` build.
pub record ConnectArgs : Type 0 where
  pub servers : List Text
  pub max_reconnect_attempts : ℕ
  pub credentials : Option (Text × Text)
  pub token : Option Text

-- `ConsumerConfig(...)`; `deliver_new` is `DeliverPolicy.NEW`, else `DeliverPolicy.ALL`.
pub record ConsumerConfig : Type 0 where
  pub durable_name : Text
  pub ack_wait : ℕ
  pub max_deliver : ℕ
  pub deliver_new : Bool

pub record Driver (N J B M Y S X : Type 0) : Type 0 where
  pub isinstance : X → NatsClass → Bool
  -- `nats.connect(**kwargs)`
  pub connect : ConnectArgs → Action S X N
  pub jetstream : N → J
  pub add_stream : J → Text → Text → Action S X (Unit {0})
  -- `_inject_propagation` and `js.publish(subject, value, headers=…)`
  pub publish : J → Text → Y → Action S X (Unit {0})
  pub subscribe : J → Text → Text → ConsumerConfig → Action S X B
  pub unsubscribe : B → Action S X (Unit {0})
  pub close : N → Action S X (Unit {0})
  pub ack : M → Action S X (Unit {0})
  pub nak : M → Action S X (Unit {0})
  pub payload : M → Y
  -- `otel_context.attach` of the context in the headers of a message, and `detach`
  pub attach : M → Action S X (Unit {0})
  pub detach : Action S X (Unit {0})
