-- ===== src/Kafka/Tests.antt =====
-- The theorems about the Kafka adapter at concrete inputs, on the broker in memory.
use openframe_adapters.Prelude.{
  ℕ, ◌<◌, ◌≡◌, refl, true, false, none, some, [], ◌∷◌, codes, List, arith,
}
use openframe_adapters.Effect.{raised}
use openframe_adapters.Effect.Errors.{unbound_local_error}
use openframe_adapters.Effect.Iteration.{Arrival, delivers}
use openframe_adapters.Kafka.Driver.{KafkaSettings}
use openframe_adapters.Kafka.Consumer.{Consumer, fresh_consumer, connect, consume, subscribe}
use openframe_adapters.Kafka.Committing.{consume_commits, later_commit_skips}
use openframe_adapters.Kafka.Consuming.{malformed_first_raises}
use openframe_adapters.Kafka.Fake.{Broker, fake, parse, picky, fake-Tracks, fake-StopsQuietly}

abbrev events : KafkaSettings
events = record {
  kafka_bootstrap_servers = codes "localhost:9092";
  kafka_topic = codes "events";
  kafka_group_id = codes "workers";
  kafka_auto_offset_reset = codes "earliest";
  kafka_max_poll_records = 10;
  kafka_session_timeout_ms = 30000;
  kafka_request_timeout_ms = 30000;
  kafka_security_protocol = codes "PLAINTEXT";
  kafka_sasl_mechanism = [];
  kafka_sasl_username = [];
  kafka_sasl_password = [];
  adapter_name = "kafka";
}

abbrev new_group : Broker
new_group = record { position = 0; committed = 0; sent = [] }

abbrev running : Consumer ℕ × Broker
running = (record { consumer = some 2; running = true; initialized = true }, new_group)

-- The handler fails on 2, the value 13 does not deserialise, and the consumer is closed before 4.
abbrev deliveries : List (Arrival ℕ (Unit {0}))
deliveries =
    delivers false 1
    ∷ delivers false 2
    ∷ delivers false 13
    ∷ delivers false 14
    ∷ delivers true 15
    ∷ []

consume_commits_example :
    (consume fake events parse picky none deliveries running).1.1.committed ≡ 15
unfolding fake
consume_commits_example =
    consume_commits fake events parse picky (fake-Tracks events) none deliveries running refl refl
      (1, refl)

later_commit_skips_example :
    2 < (consume fake events parse picky none deliveries running).1.1.committed
unfolding fake
later_commit_skips_example =
    later_commit_skips fake events parse picky (fake-Tracks events) deliveries running (1 ∷ [])
      (13 ∷ []) 2 14 refl refl (1, refl) refl refl refl (omega arith)

malformed_first_raises_example :
    let (r, w) =
      subscribe fake events parse picky
        (delivers false 13 ∷ delivers false 1 ∷ [])
        (fresh_consumer, new_group) in
    (r ≡ raised unbound_local_error) × (w.0.consumer ≡ none) × (w.0.running ≡ false)
unfolding fake connect
malformed_first_raises_example =
    malformed_first_raises fake events parse picky (fake-StopsQuietly events) 13
      (delivers false 1 ∷ []) (fresh_consumer, new_group) refl refl refl
