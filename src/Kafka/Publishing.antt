-- ===== src/Kafka/Publishing.antt =====
-- The producer: what a batch sends, and what `start` and `close` leave.
use openframe_adapters.Prelude.{Bool, true, ◌≡◌, Option, none, some, false, List, ◌∷◌, ◌++◌, arith}
use openframe_adapters.Effect.{Outcome, ok, raised}
use openframe_adapters.Effect.Errors.{Failure, outside, is_exception}
use openframe_adapters.Effect.Loops.{for_each, for_each_stops}
use openframe_adapters.Kafka.Driver.{Driver, KafkaSettings, asyncio_timeout, kafka_error}
use openframe_adapters.Kafka.Producer.{start, catches, close, send, send_failed, publish_batch}

abbrev is_some : {A : Type 0} → Option A → Bool
is_some none = false
is_some (some a) = true

module _ {P C M Y S X : Type 0} (d : Driver P C M Y S X) (settings : KafkaSettings) where
  -- A `start` that returns leaves a producer, one that raises an error of openframe-core leaves none,
  -- and what else it raises is neither a timeout nor an error of aiokafka.
  abbrev Started : Outcome (Failure X) (Unit {0}) → Option P → Type 0
  Started (ok _) p = is_some p ≡ true
  Started (raised (outside x)) p =
      (d.isinstance x asyncio_timeout ≡ false) × (d.isinstance x kafka_error ≡ false)
  Started (raised e) p = p ≡ none

  pub start_leaves : (w : Option P × S) → Started (start d settings w).0 (start d settings w).1.0
  unfolding start
  start_leaves w = ground arith

  -- `close` leaves no producer and raises only what `except Exception` passes by; a second one does
  -- nothing.
  pub close_leaves_none :
      (w : Option P × S)
      → ((close d settings w).1.0 ≡ none)
        × ((e : Failure X) → (close d settings w).0 ≡ raised e → is_exception (catches d) e ≡ false)
        × (close d settings (close d settings w).1 ≡ (ok tt, (close d settings w).1))
  unfolding close
  close_leaves_none w = (ground arith, λ e r. ground arith, ground arith)

  module _ {T : Type 0} (serialise : T → Outcome X Y) where
    -- A batch of messages that are sent, then one that fails, then any others: nothing is sent after
    -- the one that fails, nothing is flushed, and its exception goes through the `except` clauses.
    pub kafka_batch_stops :
        (w : Option P × S) {p : P} (xs : List T) (y : T) (ys : List T) {w' w'' : Option P × S}
        {e : Failure X}
        → w.0 ≡ some p
        → for_each (send d settings serialise p) xs w ≡ (ok tt, w')
        → send d settings serialise p y w' ≡ (raised e, w'')
        → publish_batch d settings serialise (xs ++ (y ∷ ys)) w
          ≡ send_failed d settings "publish_batch" e w''
    unfolding publish_batch
    kafka_batch_stops w {p} xs y ys {w'} started sent failing =
        ground (arith, for_each_stops (send d settings serialise p) xs y ys w sent failing)
