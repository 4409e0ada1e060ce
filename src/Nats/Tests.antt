-- ===== src/Nats/Tests.antt =====
-- The theorems about the NATS adapter at concrete inputs, on the broker in memory.
use openframe_adapters.Prelude.{◌≡◌, refl, true, false, none, some, [], ◌∷◌, codes, ℕ, List}
use openframe_adapters.Effect.{Outcome, ok}
use openframe_adapters.Lifecycle.{fresh}
use openframe_adapters.Lifecycle.Laws.{initialize, shutdown, health, returned}
use openframe_adapters.Effect.Iteration.{Arrival, delivers}
use openframe_adapters.Nats.Driver.{NatsSettings, NatsClass, stale_connection}
use openframe_adapters.Nats.Errors.{ensure_stream}
use openframe_adapters.Nats.Producer.{Producer, stopped_producer}
use openframe_adapters.Nats.Consumer.{Consumer, fresh_consumer, connect, consume, subscribe}
use openframe_adapters.Nats.Consuming.{subscribe_ends}
use openframe_adapters.Nats.Settling.{consume_settles}
use openframe_adapters.Lifecycle.Queue.{calls, up_after, returned-get_producer, get_producer}
use openframe_adapters.Nats.Plugin.{producers}
use openframe_adapters.Nats.Fake.{Broker, fake, picky, fake-Observes, fake-TearsDown}

abbrev orders : NatsSettings
orders = record {
  nats_servers = codes "nats://a, nats://b";
  nats_subject = codes "orders";
  nats_stream = codes "ORDERS";
  nats_durable_name = codes "worker";
  nats_deliver_policy = codes "new";
  nats_ack_wait_seconds = 30;
  nats_max_deliver = 5;
  nats_max_reconnect_attempts = 60;
  nats_user = [];
  nats_password = [];
  nats_token = [];
  adapter_name = "nats";
}

abbrev quiet : Broker
quiet = record { opened = 0; published = []; settled = []; refusal = none }

abbrev refusing : Broker
refusing = record quiet { refusal = some stale_connection }

abbrev started : Producer ℕ ℕ
started = record { nc = some 0; js = some 0 }

abbrev encode : ℕ → Outcome NatsClass ℕ
encode n = ok n

-- Before the loop: a consumer that holds its subscription and runs.
abbrev running : Consumer ℕ ℕ ℕ × Broker
running =
    (record { nc = some 0; js = some 0; sub = some 0; running = true; initialized = true }, quiet)

abbrev fresh_world : Consumer ℕ ℕ ℕ × Broker
fresh_world = (fresh_consumer, quiet)

-- The handler fails on the second message, and another task closes the consumer before the fourth.
abbrev deliveries : List (Arrival ℕ NatsClass)
deliveries =
    delivers false 1 ∷ delivers false 2 ∷ delivers false 3 ∷ delivers true 4 ∷ delivers false 5 ∷ []

consume_settles_example :
    (consume fake orders (λ m. ok m) picky deliveries running).1.1.settled ≡ 1 ∷ 2 ∷ 3 ∷ []
consume_settles_example =
    consume_settles fake orders (λ m. ok m) picky (fake-Observes orders) deliveries running refl

subscribe_ends_example :
    let (r, w) = subscribe fake orders (λ m. ok m) picky deliveries fresh_world in
    (w.0.nc ≡ none)
    × (w.0.js ≡ none)
    × (w.0.sub ≡ none)
    × (w.0.running ≡ false)
    × (r
        ≡ (consume fake orders
            (λ m. ok m)
            picky
            deliveries
            (record running.0 { initialized = false }, record quiet { opened = 1 })).0)
unfolding fake connect ensure_stream
subscribe_ends_example =
    subscribe_ends fake orders (λ m. ok m) picky (fake-TearsDown orders) deliveries fresh_world refl

returned-get_producer_example :
    returned (
      get_producer {X = NatsClass}
        (calls
          (producers fake)
          orders
          (initialize ∷ health ∷ shutdown ∷ initialize ∷ [])
          (fresh, (stopped_producer, quiet))).0)
    ≡ up_after
        (producers fake)
        orders
        (initialize ∷ health ∷ shutdown ∷ initialize ∷ [])
        (fresh, (stopped_producer, quiet))
returned-get_producer_example =
    returned-get_producer (producers fake) orders (initialize ∷ health ∷ shutdown ∷ initialize ∷ [])
      (stopped_producer, quiet)
