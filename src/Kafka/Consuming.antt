-- ===== src/Kafka/Consuming.antt =====
-- What `subscribe` leaves, and a first message that does not deserialise.
use openframe_adapters.Prelude.{
  ◌≡◌, refl, true, false, none, some, arith, Option, List, ◌∷◌, inl, inr,
}
use openframe_adapters.Effect.{Outcome, ok, raised, Action, ran-cases}
use openframe_adapters.Effect.Errors.{Failure, unbound_local_error}
use openframe_adapters.Effect.Iteration.{Arrival, delivers}
use openframe_adapters.Kafka.Driver.{Driver, KafkaSettings}
use openframe_adapters.Kafka.Producer.{catches}
use openframe_adapters.Kafka.Consumer.{
  Consumer, connect, consume, settle, round_failed, tear_down, subscribe, stop_if,
}

module _ {P C M Y S X : Type 0} (d : Driver P C M Y S X) (settings : KafkaSettings) where
  -- Documented: stopping a consumer raises nothing but `Exception`s.
  pub record StopsQuietly : Type 0 where
    pub stop_raises :
        (c : C) (s : S) (x : X) (s' : S) → d.stop_consumer c s ≡ (raised x, s') → catches d x ≡ true

  stop_if_quiet :
      StopsQuietly
      → (o : Option C) (w : Consumer C × S)
      → ((stop_if d settings o w).0 ≡ ok tt) × ((stop_if d settings o w).1.0 ≡ w.0)
  stop_if_quiet q none w = (refl, refl)
  stop_if_quiet q (some c) w = elim (ran-cases (d.stop_consumer c w.1)) [
    | inl (a, e) ↦ (ground arith, ground arith)
    | inr (x, e) ↦ let h = q.stop_raises _ _ _ _ e in (ground (arith, h), ground (arith, h))
  ]

  tear_down_resets :
      StopsQuietly
      → (w : Consumer C × S)
      → ((tear_down d settings w).0 ≡ ok tt)
        × ((tear_down d settings w).1.0 ≡ record w.0 { consumer = none; running = false })
  unfolding tear_down
  tear_down_resets q w =
      let (a, b) = stop_if_quiet q w.0.consumer w in (ground (arith, a, b), ground (arith, a, b))

  connect_runs :
      (w : Consumer C × S) {u : Consumer C × S}
      → connect d settings w ≡ (ok tt, u)
      → u.0.running ≡ true
  unfolding connect
  connect_runs w h = ground arith

  module _ {T : Type 0} (deserialise : Y → Outcome X T)
      (handler : T → Action (Consumer C × S) (Failure X) (Unit {0})) where
    -- Once the consumer has started, `subscribe` ends with no consumer and not running, whatever the
    -- messages and the handler did, and raises exactly what the message loop raised.
    pub subscribe_resets :
        StopsQuietly
        → (arrivals : List (Arrival M X)) (w : Consumer C × S) {u : Consumer C × S}
        → connect d settings w ≡ (ok tt, u)
        → let (r, w') = subscribe d settings deserialise handler arrivals w in
          (w'.0.consumer ≡ none)
          × (w'.0.running ≡ false)
          × (r ≡ (consume d settings deserialise handler none arrivals u).0)
    unfolding subscribe
    subscribe_resets q arrivals w {u} h =
        let (a, b) =
          tear_down_resets q (consume d settings deserialise handler none arrivals u).1 in
        (ground (arith, a, b), ground (arith, a, b), ground (arith, a, b))

    -- Where the first message of a Kafka subscription fails to deserialise with an `Exception`,
    -- and stopping a consumer raises nothing but `Exception`s, `subscribe` ends with no consumer,
    -- not running, and raises the UnboundLocalError of its own call of `nack`.
    pub malformed_first_raises :
        StopsQuietly
        → (m : M) (rest : List (Arrival M X)) (w : Consumer C × S) {u : Consumer C × S} {x : X}
        → connect d settings w ≡ (ok tt, u)
        → deserialise (d.payload m) ≡ raised x
        → catches d x ≡ true
        → let (r, w') = subscribe d settings deserialise handler (delivers false m ∷ rest) w in
          (r ≡ raised unbound_local_error) × (w'.0.consumer ≡ none) × (w'.0.running ≡ false)
    unfolding consume settle round_failed
    malformed_first_raises q m rest w h broken caught =
        let (a, b, e) = subscribe_resets q (delivers false m ∷ rest) w h in
        (ground (arith, e, connect_runs w h), a, b)
