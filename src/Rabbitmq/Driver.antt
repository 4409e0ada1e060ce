-- ===== src/Rabbitmq/Driver.antt =====
-- What the RabbitMQ adapter takes from outside: aio-pika, asyncio, json and the trace propagation, as
-- one record of calls on the state `S` of the outside world; `N` are connections, `H` channels, `Q`
-- queues, `I` iterators over a queue, `M` incoming messages, `Y` bodies and `X` exceptions. An
-- awaited call under `asyncio.timeout` stands for the call inside that block. Also the settings of
-- packages/openframe-adapters-queue-rabbitmq/openframe/adapters/queue/rabbitmq/config.py.
use openframe_adapters.Prelude.{ℕ, Bool, Text, String}
use openframe_adapters.Effect.{Action}

-- The exception classes that the sources name.
pub data RabbitmqClass : Type 0 where
  asyncio_timeout amqp_error amqp_connection_error builtin_connection_error os_error
        builtin_exception :
      RabbitmqClass

pub record RabbitmqSettings : Type 0 where
  pub rabbitmq_url : Text
  pub rabbitmq_queue : Text
  pub rabbitmq_durable : Bool
  pub rabbitmq_prefetch_count : ℕ
  pub rabbitmq_reconnect_interval : ℕ
  pub adapter_name : String

pub record Driver (N H Q I M Y S X : Type 0) : Type 0 where
  pub isinstance : X → RabbitmqClass → Bool
  -- `aio_pika.connect_robust(url, reconnect_interval=…)`, and methods of a connection
  pub connect_robust : Text → ℕ → Action S X N
  pub channel : N → Action S X H
  pub is_closed : N → Action S X Bool
  pub close_connection : N → Action S X (Unit {0})
  -- methods of a channel
  pub close_channel : H → Action S X (Unit {0})
  pub set_qos : H → ℕ → Action S X (Unit {0})
  pub declare_queue : H → Text → Bool → Action S X Q
  -- `_inject_trace_headers` and `default_exchange.publish(Message(body=…), routing_key=…)`
  pub publish : H → Y → Text → Action S X (Unit {0})
  -- `queue.iterator()` with its `__aenter__`, and its `__aexit__`
  pub open_iterator : Q → Action S X I
  pub close_iterator : I → Action S X (Unit {0})
  -- an incoming message: `nack` requeues it
  pub body : M → Y
  pub ack : M → Action S X (Unit {0})
  pub nack : M → Action S X (Unit {0})
  -- the context in the headers of a message, and `otel_context.attach` of it; `detach`
  pub attach : M → Action S X (Unit {0})
  pub detach : Action S X (Unit {0})
