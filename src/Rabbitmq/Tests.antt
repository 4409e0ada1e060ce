-- ===== src/Rabbitmq/Tests.antt =====
-- The theorems about the RabbitMQ adapter at concrete inputs, on the broker in memory.
use openframe_adapters.Prelude.{ℕ, ◌≡◌, refl, true, false, none, some, List, [], ◌∷◌, codes}
use openframe_adapters.Effect.{raised}
use openframe_adapters.Effect.Iteration.{Arrival, delivers}
use openframe_adapters.Rabbitmq.Driver.{RabbitmqSettings}
use openframe_adapters.Rabbitmq.Errors.{wrap_rabbitmq}
use openframe_adapters.Rabbitmq.Consumer.{
  Consumer, fresh_consumer, connect, iterate, consume, subscribe, close,
}
use openframe_adapters.Rabbitmq.Settling.{consume_replies}
use openframe_adapters.Rabbitmq.Consuming.{subscribe_releases, subscribe_drops_connection}
use openframe_adapters.Rabbitmq.Fake.{Broker, fake, parse, picky, fake-Answers, fake-ClosesQuietly}

abbrev jobs : RabbitmqSettings
jobs = record {
  rabbitmq_url = codes "amqp://localhost";
  rabbitmq_queue = codes "jobs";
  rabbitmq_durable = true;
  rabbitmq_prefetch_count = 10;
  rabbitmq_reconnect_interval = 5000;
  adapter_name = "rabbitmq";
}

abbrev quiet : Broker
quiet = record { answered = []; refuses = false }

abbrev refusing : Broker
refusing = record { answered = []; refuses = true }

abbrev listening : Consumer ℕ ℕ ℕ ℕ × Broker
listening = (
  record fresh_consumer { connection = some 1; channel = some 2; queue = some 3; running = true },
  quiet,
)

-- The handler fails on 2, the body 13 does not deserialise, and the consumer is closed before 15.
abbrev deliveries : List (Arrival ℕ (Unit {0}))
deliveries =
    delivers false 1
    ∷ delivers false 2
    ∷ delivers false 13
    ∷ delivers false 14
    ∷ delivers true 15
    ∷ []

consume_replies_example :
    (consume fake jobs parse picky deliveries listening).1.1.answered
    ≡ (1, true) ∷ (2, false) ∷ (13, false) ∷ (14, true) ∷ []
unfolding fake
consume_replies_example =
    consume_replies fake jobs parse picky (fake-Answers jobs) deliveries listening refl

subscribe_releases_example :
    let (r, w) = subscribe fake jobs parse picky deliveries (fresh_consumer, quiet) in
    (w.0.connection ≡ none)
    × (w.0.channel ≡ none)
    × (w.0.queue ≡ none)
    × (w.0.running ≡ false)
    × (r
        ≡ (iterate fake jobs parse picky deliveries (
          record fresh_consumer {
            connection = some 1;
            channel = some 2;
            queue = some 3;
            running = true;
          },
          quiet,
        )).0)
unfolding fake connect
subscribe_releases_example =
    subscribe_releases fake jobs parse picky (fake-ClosesQuietly jobs) deliveries
      (fresh_consumer, quiet) refl

subscribe_drops_connection_example :
    let (r, u) = subscribe fake jobs parse picky deliveries (fresh_consumer, refusing) in
    (r ≡ raised (wrap_rabbitmq fake jobs tt "subscribe"))
    × (u.1 ≡ refusing)
    × ((close fake jobs u).1.1 ≡ refusing)
unfolding fake
subscribe_drops_connection_example =
    subscribe_drops_connection fake jobs parse picky deliveries (fresh_consumer, refusing) refl refl
      refl
