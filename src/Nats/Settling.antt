-- ===== src/Nats/Settling.antt =====
-- Every message that the loop takes is settled, by one `ack` or one `nak`, in the order of delivery.
use openframe_adapters.Prelude.{
  ◌≡◌, refl, sym, ◌∙◌, true, false, none, some, arith, Option, List, [], ◌∷◌, ◌++◌, inl, inr,
}
use mathlib.Core.List.{append_assoc, append-nil}
use openframe_adapters.Effect.{Outcome, ok, Action, ran-cases}
use openframe_adapters.Nats.Consuming.{settle_outcome}
use openframe_adapters.Effect.Errors.{
  adapter_error, runtime_error, type_error, unbound_local_error, attribute_error, Failure, outside,
  is_exception,
}
use openframe_adapters.Nats.Driver.{Driver, NatsSettings}
use openframe_adapters.Effect.Iteration.{Arrival, delivers, breaks, taken}
use openframe_adapters.Nats.Errors.{catches}
use openframe_adapters.Nats.Consumer.{
  Consumer, ack, nack, process, settle, consume, close, unsubscribe_if, close_if,
}

module _ {N J B M Y S X T : Type 0} (d : Driver N J B M Y S X) (settings : NatsSettings)
    (deserialise : Y → Outcome X T)
    (handler : T → Action (Consumer N J B × S) (Failure X) (Unit {0})) where
  -- `log` is the list of messages for which the broker was sent an `ack` or a `nak`. The calls of
  -- the driver enter them there, also where the call then raises; nothing else does; the handler
  -- settles no message and does not stop the consumer; and every exception is an `Exception`.
  pub record Observes (log : S → List M) : Type 0 where
    pub ack_logs : (m : M) (s : S) → log (d.ack m s).1 ≡ log s ++ (m ∷ [])
    pub nak_logs : (m : M) (s : S) → log (d.nak m s).1 ≡ log s ++ (m ∷ [])
    pub attach_keeps : (m : M) (s : S) → log (d.attach m s).1 ≡ log s
    pub detach_keeps : (s : S) → log (d.detach s).1 ≡ log s
    pub unsubscribe_keeps : (b : B) (s : S) → log (d.unsubscribe b s).1 ≡ log s
    pub close_keeps : (n : N) (s : S) → log (d.close n s).1 ≡ log s
    pub handler_keeps : (t : T) (w : Consumer N J B × S) → log (handler t w).1.1 ≡ log w.1
    pub handler_runs : (t : T) (w : Consumer N J B × S) → (handler t w).1.0.running ≡ w.0.running
    pub all_exceptions : (x : X) → catches d x ≡ true

  module _ {log : S → List M} (obs : Observes log) where
    is_exception_all : (e : Failure X) → is_exception (catches d) e ≡ true
    is_exception_all (adapter_error a) = refl
    is_exception_all runtime_error = refl
    is_exception_all type_error = refl
    is_exception_all unbound_local_error = refl
    is_exception_all attribute_error = refl
    is_exception_all (outside x) = obs.all_exceptions x

    process_keeps :
        (m : M) (w : Consumer N J B × S)
        → (log (process d settings deserialise handler m w).1.1 ≡ log w.1)
          × ((process d settings deserialise handler m w).1.0.running ≡ w.0.running)
    unfolding process
    process_keeps m w =
        grind (arith, obs.attach_keeps, obs.detach_keeps, obs.handler_keeps, obs.handler_runs)

    ack_settles :
        (m : M) (w : Consumer N J B × S)
        → ((ack d settings m w).0 ≡ ok tt)
          × (log (ack d settings m w).1.1 ≡ log w.1 ++ (m ∷ []))
          × ((ack d settings m w).1.0 ≡ w.0)
    unfolding ack
    ack_settles m w = grind (arith, obs.ack_logs, obs.all_exceptions)

    nack_settles :
        (m : M) (w : Consumer N J B × S)
        → ((nack d settings m w).0 ≡ ok tt)
          × (log (nack d settings m w).1.1 ≡ log w.1 ++ (m ∷ []))
          × ((nack d settings m w).1.0 ≡ w.0)
    unfolding nack
    nack_settles m w = grind (arith, obs.nak_logs, obs.all_exceptions)

    settle_logs :
        (m : M) (w : Consumer N J B × S)
        → let (r, u) = settle d settings deserialise handler m w in
          (r ≡ ok tt) × (log u.1 ≡ log w.1 ++ (m ∷ [])) × (u.0.running ≡ w.0.running)
    unfolding settle
    settle_logs m w =
        let u = (process d settings deserialise handler m w).1 in
        let (by_ack, by_nak, _) = settle_outcome d settings deserialise handler m w in
        let (same, on) = process_keeps m w in
        elim (ran-cases (process d settings deserialise handler m w)) [
          | inl (a, e) ↦
              let s = by_ack u e in
              let (x, y, z) = ack_settles m u in
              (ground (arith, s, x), ground (arith, s, y, same), ground (arith, s, z, on))
          | inr (f, e) ↦
              let s = by_nak f u e (is_exception_all f) in
              let (x, y, z) = nack_settles m u in
              (ground (arith, s, x), ground (arith, s, y, same), ground (arith, s, z, on))
        ]

    unsubscribe_if_keeps :
        (o : Option B) (w : Consumer N J B × S)
        → ((unsubscribe_if d settings o w).0 ≡ ok tt)
          × (log (unsubscribe_if d settings o w).1.1 ≡ log w.1)
          × ((unsubscribe_if d settings o w).1.0 ≡ w.0)
    unsubscribe_if_keeps none w = (refl, refl, refl)
    unsubscribe_if_keeps (some b) w = grind (arith, obs.unsubscribe_keeps, obs.all_exceptions)

    close_if_keeps :
        (o : Option N) (w : Consumer N J B × S)
        → ((close_if d settings o w).0 ≡ ok tt)
          × (log (close_if d settings o w).1.1 ≡ log w.1)
          × ((close_if d settings o w).1.0 ≡ w.0)
    close_if_keeps none w = (refl, refl, refl)
    close_if_keeps (some n) w = grind (arith, obs.close_keeps, obs.all_exceptions)

    close_stops_loop :
        (w : Consumer N J B × S)
        → ((close d settings w).0 ≡ ok tt)
          × (log (close d settings w).1.1 ≡ log w.1)
          × ((close d settings w).1.0.running ≡ false)
    unfolding close
    close_stops_loop w =
        let v : Consumer N J B × S = (record w.0 { running = false }, w.1) in
        let u = (unsubscribe_if d settings w.0.sub v).1 in
        let (a, b, c) = unsubscribe_if_keeps w.0.sub v in
        let (a', b', c') = close_if_keeps u.0.nc u in
        (
          ground (arith, a, b, c, a', b', c'),
          ground (arith, a, b, c, a', b', c'),
          ground (arith, a, b, c, a', b', c'),
        )

    -- While the handler does not stop the consumer and every exception is an `Exception`, the
    -- messages for which the loop of `subscribe` sends an ack or a nak are exactly those that
    -- arrive before another task calls `close` or the iterator breaks off, each once and in the
    -- order of delivery.
    pub consume_settles :
        (arrivals : List (Arrival M X)) (w : Consumer N J B × S)
        → w.0.running ≡ true
        → log (consume d settings deserialise handler arrivals w).1.1 ≡ log w.1 ++ taken arrivals
    unfolding consume
    consume_settles [] w on = sym (append-nil (log w.1))
    consume_settles (breaks true x ∷ rest) w on =
        ground (arith, close_stops_loop w, append-nil (log w.1))
    consume_settles (breaks false x ∷ rest) w on = sym (append-nil (log w.1))
    consume_settles (delivers true m ∷ rest) w on =
        ground (arith, close_stops_loop w, append-nil (log w.1))
    consume_settles (delivers false m ∷ rest) w on =
        let u = (settle d settings deserialise handler m w).1 in
        let (a, b, c) = settle_logs m w in
        ground (
          arith,
          on,
          a,
          b,
          c,
          consume_settles rest u (c ∙ on),
          append_assoc (log w.1) (m ∷ []) (taken rest),
        )
