-- ===== src/Rabbitmq/Publishing.antt =====
-- The producer: what `start` and `close` leave, what `publish` raises, and what a batch sends.
use openframe_adapters.Prelude.{◌≡◌, Bool, true, false, Option, none, some, List, ◌∷◌, ◌++◌, arith}
use openframe_adapters.Effect.{Outcome, ok, raised}
use openframe_adapters.Effect.Errors.{Failure, outside, is_exception}
use openframe_adapters.Effect.Loops.{for_each, for_each_stops}
use openframe_adapters.Rabbitmq.Driver.{Driver, RabbitmqSettings, asyncio_timeout}
use openframe_adapters.Rabbitmq.Errors.{catches, is_listed, wrap_rabbitmq}
use openframe_adapters.Rabbitmq.Producer.{
  Producer, stopped_producer, start, close, send, send_failed, publish_batch,
}

abbrev is_some : {A : Type 0} → Option A → Bool
is_some none = false
is_some (some a) = true

module _ {N H Q I M Y S X : Type 0} (d : Driver N H Q I M Y S X) (settings : RabbitmqSettings) where
  -- A `start` that returns leaves a producer with its channel, one that raises an error of
  -- openframe-core a stopped one, and what else it raises is neither a timeout nor listed.
  abbrev Started : Outcome (Failure X) (Unit {0}) → Producer N H → Type 0
  Started (ok _) p = (is_some p.connection ≡ true) × (is_some p.channel ≡ true)
  Started (raised (outside x)) p =
      (d.isinstance x asyncio_timeout ≡ false) × (is_listed d x ≡ false)
  Started (raised e) p = p ≡ stopped_producer

  pub start_leaves_open :
      (w : Producer N H × S) → Started (start d settings w).0 (start d settings w).1.0
  unfolding start
  start_leaves_open w = ground arith

  -- Where the connection is made and opening the channel then raises an exception that `start` names,
  -- `start` raises the translated error and forgets the connection, and `close` afterwards does nothing.
  pub start_drops :
      (w : Producer N H × S) {n : N} {x : X} {s s' : S}
      → d.connect_robust settings.rabbitmq_url settings.rabbitmq_reconnect_interval w.1 ≡ (ok n, s)
      → d.channel n s ≡ (raised x, s')
      → d.isinstance x asyncio_timeout ≡ false
      → is_listed d x ≡ true
      → (start d settings w ≡ (raised (wrap_rabbitmq d settings x "start"), (stopped_producer, s')))
        × (close d settings (stopped_producer, s') ≡ (ok tt, (stopped_producer, s')))
  unfolding start close
  start_drops w opened refused late listed = (ground arith, ground arith)

  -- `close` leaves a stopped producer if closing raises nothing but `Exception`s, and a channel or a
  -- connection that it is asked to close is gone in any case.
  pub close_releases :
      (w : Producer N H × S)
      → let (r, u) = close d settings w in
        (u.0.channel ≡ none)
        × (r ≡ ok tt → u.0 ≡ stopped_producer)
        × ((e : Failure X) → r ≡ raised e → is_exception (catches d) e ≡ false)
  unfolding close
  close_releases w = (ground arith, λ h. ground arith, λ e h. ground arith)

  module _ {T : Type 0} (serialise : T → Outcome X Y) where
    -- A batch of messages that are sent, then one that fails, then any others: nothing is sent after
    -- the one that fails, and its exception goes through the `except` clauses.
    pub rabbitmq_batch_stops :
        (w : Producer N H × S) {h : H} (xs : List T) (y : T) (ys : List T)
        {w' w'' : Producer N H × S} {e : Failure X}
        → w.0.channel ≡ some h
        → for_each (send d settings serialise h) xs w ≡ (ok tt, w')
        → send d settings serialise h y w' ≡ (raised e, w'')
        → publish_batch d settings serialise (xs ++ (y ∷ ys)) w
          ≡ send_failed d settings "publish_batch" e w''
    unfolding publish_batch
    rabbitmq_batch_stops w {h} xs y ys {w'} started sent failing =
        ground (arith, for_each_stops (send d settings serialise h) xs y ys w sent failing)
