-- ===== src/Nats/Consuming.antt =====
-- The message loop of the consumer: what is acknowledged, and what `subscribe` leaves.
use openframe_adapters.Prelude.{◌≡◌, refl, true, false, none, some, arith, Option, List, inl, inr}
use openframe_adapters.Effect.{Outcome, ok, raised, Action, ran-cases}
use openframe_adapters.Effect.Errors.{Failure, is_exception}
use openframe_adapters.Nats.Driver.{Driver, NatsSettings}
use openframe_adapters.Effect.Iteration.{Arrival}
use openframe_adapters.Nats.Errors.{catches}
use openframe_adapters.Nats.Consumer.{
  Consumer, ack, nack, process, settle, consume, connect, tear_down, subscribe, unsubscribe_if,
  close_if,
}

module _ {N J B M Y S X : Type 0} (d : Driver N J B M Y S X) (settings : NatsSettings) where
  -- Documented: unsubscribing and closing raise nothing but `Exception`s.
  pub record TearsDown : Type 0 where
    pub unsubscribe_raises :
        (b : B) (s : S) (x : X) (s' : S) → d.unsubscribe b s ≡ (raised x, s') → catches d x ≡ true
    pub close_raises :
        (n : N) (s : S) (x : X) (s' : S) → d.close n s ≡ (raised x, s') → catches d x ≡ true

  unsubscribe_if_quiet :
      TearsDown
      → (o : Option B) (w : Consumer N J B × S)
      → ((unsubscribe_if d settings o w).0 ≡ ok tt) × ((unsubscribe_if d settings o w).1.0 ≡ w.0)
  unsubscribe_if_quiet t none w = (refl, refl)
  unsubscribe_if_quiet t (some b) w = elim (ran-cases (d.unsubscribe b w.1)) [
    | inl (a, e) ↦ (ground arith, ground arith)
    | inr (x, e) ↦ let c = t.unsubscribe_raises _ _ _ _ e in (ground (arith, c), ground (arith, c))
  ]

  close_if_quiet :
      TearsDown
      → (o : Option N) (w : Consumer N J B × S)
      → ((close_if d settings o w).0 ≡ ok tt) × ((close_if d settings o w).1.0 ≡ w.0)
  close_if_quiet t none w = (refl, refl)
  close_if_quiet t (some n) w = elim (ran-cases (d.close n w.1)) [
    | inl (a, e) ↦ (ground arith, ground arith)
    | inr (x, e) ↦ let c = t.close_raises _ _ _ _ e in (ground (arith, c), ground (arith, c))
  ]

  tear_down_resets :
      TearsDown
      → (w : Consumer N J B × S)
      → ((tear_down d settings w).0 ≡ ok tt)
        × ((tear_down d settings w).1.0
            ≡ record w.0 { nc = none; js = none; sub = none; running = false })
  unfolding tear_down
  tear_down_resets t w =
      let u = (unsubscribe_if d settings w.0.sub w).1 in
      let v = (close_if d settings w.0.nc u).1 in
      let (a, b) = unsubscribe_if_quiet t w.0.sub w in
      let (a', b') = close_if_quiet t u.0.nc u in
      (ground (arith, a, b, a', b'), ground (arith, a, b, a', b'))

module _ {N J B M Y S X T : Type 0} (d : Driver N J B M Y S X) (settings : NatsSettings)
    (deserialise : Y → Outcome X T)
    (handler : T → Action (Consumer N J B × S) (Failure X) (Unit {0})) where
  abbrev World : Type 0
  World = Consumer N J B × S

  -- A message whose handler returns is acknowledged, one whose deserialisation or handler raises
  -- an `Exception` is negatively acknowledged, and what `except Exception` passes by leaves the
  -- loop with the message untouched.
  pub settle_outcome :
      (msg : M) (w : World)
      → ((u : World)
          → process d settings deserialise handler msg w ≡ (ok tt, u)
          → settle d settings deserialise handler msg w ≡ ack d settings msg u)
        × ((e : Failure X) (u : World)
            → process d settings deserialise handler msg w ≡ (raised e, u)
            → is_exception (catches d) e ≡ true
            → settle d settings deserialise handler msg w ≡ nack d settings msg u)
        × ((e : Failure X) (u : World)
            → process d settings deserialise handler msg w ≡ (raised e, u)
            → is_exception (catches d) e ≡ false
            → settle d settings deserialise handler msg w ≡ (raised e, u))
  unfolding settle ack nack
  settle_outcome msg w = (λ u p. ground arith, λ e u p c. ground arith, λ e u p c. ground arith)

  -- Once its connection is made, where unsubscribing and closing raise nothing but `Exception`s,
  -- `subscribe` ends with no client, context or subscription and not running, whatever the
  -- messages and the handler did, and it raises exactly what the message loop raised.
  pub subscribe_ends :
      TearsDown d settings
      → (arrivals : List (Arrival M X)) (w : World) {u : World} → connect d settings w ≡ (ok tt, u)
      → let (r, w') = subscribe d settings deserialise handler arrivals w in
        (w'.0.nc ≡ none)
        × (w'.0.js ≡ none)
        × (w'.0.sub ≡ none)
        × (w'.0.running ≡ false)
        × (r ≡ (consume d settings deserialise handler arrivals u).0)
  unfolding subscribe
  subscribe_ends t arrivals w {u} h =
      let (a, b) =
        tear_down_resets d settings t (consume d settings deserialise handler arrivals u).1 in
      (
        ground (arith, a, b),
        ground (arith, a, b),
        ground (arith, a, b),
        ground (arith, a, b),
        ground (arith, a, b),
      )
