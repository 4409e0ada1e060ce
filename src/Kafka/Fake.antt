-- ===== src/Kafka/Fake.antt =====
-- A broker in memory: it is what the witnesses run on, and models no code.
use openframe_adapters.Prelude.{
  ℕ, ◌+◌, refl, Bool, true, false, not, ◌==◌, List, [], ◌∷◌, ◌++◌, arith, if◌then◌else◌,
}
use openframe_adapters.Effect.{Outcome, ok, raised, Action, pure, raise}
use openframe_adapters.Effect.Errors.{Failure, outside}
use openframe_adapters.Kafka.Driver.{
  Driver, KafkaSettings, KafkaClass, kafka_error, builtin_exception,
}
use openframe_adapters.Kafka.Consumer.{Consumer}
use openframe_adapters.Kafka.Committing.{Tracks}
use openframe_adapters.Kafka.Consuming.{StopsQuietly}

-- The position of the consumer, what is committed, and what was sent.
pub record Broker : Type 0 where
  pub position : ℕ
  pub committed : ℕ
  pub sent : List ℕ

-- The only exception: a `KafkaError`.
abbrev pub is_kafka_error : Unit {0} → KafkaClass → Bool
is_kafka_error x kafka_error = true
is_kafka_error x builtin_exception = true
is_kafka_error x _ = false

-- Messages are their offsets; the value 13 is refused.
unfoldable pub fake : Driver ℕ ℕ ℕ ℕ Broker (Unit {0})
fake = record {
  isinstance = is_kafka_error;
  new_producer = λ args s. (ok 1, s);
  start_producer = λ p s. (ok tt, s);
  stop_producer = λ p s. (ok tt, s);
  send_and_wait = λ p topic v s.
      if v == 13 then (raised tt, s) else (ok tt, record s { sent = s.sent ++ (v ∷ []) });
  flush = λ p s. (ok tt, s);
  new_consumer = λ topic args s. (ok 2, s);
  start_consumer = λ c s. (ok tt, s);
  stop_consumer = λ c s. (ok tt, s);
  commit = λ c s. (ok tt, record s { committed = s.position });
  hand_over = λ m s. record s { position = m + 1 };
  payload = λ m. m;
  attach = λ m s. (ok tt, s);
  detach = λ s. (ok tt, s);
}

-- The value 13 does not deserialise, and the handler fails on 2.
abbrev pub parse : ℕ → Outcome (Unit {0}) ℕ
parse v = if v == 13 then raised tt else ok v

abbrev pub accepts : ℕ → Bool
accepts t = not (t == 2)

abbrev pub picky : ℕ → Action (Consumer ℕ × Broker) (Failure (Unit {0})) (Unit {0})
picky t = if accepts t then pure tt else raise (outside tt)

pub fake-Tracks :
    (settings : KafkaSettings)
    → Tracks fake settings parse picky
        (λ s. s.position)
        (λ s. s.committed)
        (λ m. m)
        accepts
        (λ t. tt)
unfolding fake
fake-Tracks settings = record {
  hand_over_moves = λ m s. refl;
  hand_over_keeps = λ m s. refl;
  commit_returns = λ c s. refl;
  commit_commits = λ c s. refl;
  stop_keeps = λ c s. refl;
  attach_returns = λ m s. refl;
  attach_position = λ m s. refl;
  attach_keeps = λ m s. refl;
  detach_returns = λ s. refl;
  detach_position = λ s. refl;
  detach_keeps = λ s. refl;
  handler_outcome = λ t w. ground arith;
  handler_position = λ t w. ground arith;
  handler_keeps = λ t w. ground arith;
  handler_consumer = λ t w. ground arith;
  all_exceptions = λ x. refl;
}

pub fake-StopsQuietly : (settings : KafkaSettings) → StopsQuietly fake settings
unfolding fake
fake-StopsQuietly settings = record { stop_raises = λ c s x s' h. refl }
