-- ===== src/Kafka/Driver.antt =====
-- What the Kafka adapter takes from outside: aiokafka, asyncio, json and the trace propagation, as one
-- record of calls on the state `S` of the outside world; `P` are producers and `C` consumers of
-- aiokafka, `M` raw messages, `Y` payloads and `X` exceptions. An awaited call under
-- `asyncio.timeout` stands for the call inside that block. Also the settings of
-- packages/openframe-adapters-queue-kafka/openframe/adapters/queue/kafka/config.py.
use openframe_adapters.Prelude.{ℕ, Bool, false, Option, none, some, Text, [], ◌∷◌, String}
use openframe_adapters.Effect.{Action}

-- The exception classes that the sources name.
pub data KafkaClass : Type 0 where
  asyncio_timeout kafka_connection_error kafka_error builtin_exception : KafkaClass

pub record KafkaSettings : Type 0 where
  pub kafka_bootstrap_servers : Text
  pub kafka_topic : Text
  pub kafka_group_id : Text
  pub kafka_auto_offset_reset : Text
  pub kafka_max_poll_records : ℕ
  pub kafka_session_timeout_ms : ℕ
  pub kafka_request_timeout_ms : ℕ
  pub kafka_security_protocol : Text
  pub kafka_sasl_mechanism : Text
  pub kafka_sasl_username : Text
  pub kafka_sasl_password : Text
  pub adapter_name : String

-- The SASL arguments, which both clients get where a mechanism is set.
pub record Sasl : Type 0 where
  pub sasl_mechanism : Text
  pub sasl_plain_username : Text
  pub sasl_plain_password : Text

-- The keyword arguments of `AIOKafkaProducer` and of `AIOKafkaConsumer`.
pub record ProducerArgs : Type 0 where
  pub bootstrap_servers : Text
  pub request_timeout_ms : ℕ
  pub security_protocol : Text
  pub sasl : Option Sasl

pub record ConsumerArgs : Type 0 where
  pub bootstrap_servers : Text
  pub group_id : Text
  pub auto_offset_reset : Text
  pub enable_auto_commit : Bool
  pub max_poll_records : ℕ
  pub session_timeout_ms : ℕ
  pub request_timeout_ms : ℕ
  pub security_protocol : Text
  pub sasl : Option Sasl

unfoldable pub sasl_of : KafkaSettings → Option Sasl
sasl_of settings = elim settings.kafka_sasl_mechanism [
  | [] ↦ none
  | c ∷ cs ↦ some (record {
    sasl_mechanism = c ∷ cs;
    sasl_plain_username = settings.kafka_sasl_username;
    sasl_plain_password = settings.kafka_sasl_password;
  })
]

unfoldable pub producer_args : KafkaSettings → ProducerArgs
unfolding sasl_of
producer_args settings = record {
  bootstrap_servers = settings.kafka_bootstrap_servers;
  request_timeout_ms = settings.kafka_request_timeout_ms;
  security_protocol = settings.kafka_security_protocol;
  sasl = sasl_of settings;
}

unfoldable pub consumer_args : KafkaSettings → ConsumerArgs
unfolding sasl_of
consumer_args settings = record {
  bootstrap_servers = settings.kafka_bootstrap_servers;
  group_id = settings.kafka_group_id;
  auto_offset_reset = settings.kafka_auto_offset_reset;
  enable_auto_commit = false;
  max_poll_records = settings.kafka_max_poll_records;
  session_timeout_ms = settings.kafka_session_timeout_ms;
  request_timeout_ms = settings.kafka_request_timeout_ms;
  security_protocol = settings.kafka_security_protocol;
  sasl = sasl_of settings;
}

pub record Driver (P C M Y S X : Type 0) : Type 0 where
  pub isinstance : X → KafkaClass → Bool
  -- `AIOKafkaProducer(**kwargs)` and its methods
  pub new_producer : ProducerArgs → Action S X P
  pub start_producer : P → Action S X (Unit {0})
  pub stop_producer : P → Action S X (Unit {0})
  -- `_inject_trace_headers` and `send_and_wait(topic, value, headers=…)`
  pub send_and_wait : P → Text → Y → Action S X (Unit {0})
  pub flush : P → Action S X (Unit {0})
  -- `AIOKafkaConsumer(topic, **kwargs)` and its methods
  pub new_consumer : Text → ConsumerArgs → Action S X C
  pub start_consumer : C → Action S X (Unit {0})
  pub stop_consumer : C → Action S X (Unit {0})
  pub commit : C → Action S X (Unit {0})
  -- what the iterator notes when it hands over a message
  pub hand_over : M → S → S
  pub payload : M → Y
  -- the context in the headers of a message, and `otel_context.attach` of it; `detach`
  pub attach : M → Action S X (Unit {0})
  pub detach : Action S X (Unit {0})
