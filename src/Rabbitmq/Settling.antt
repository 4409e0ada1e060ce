-- ===== src/Rabbitmq/Settling.antt =====
-- How the message loop answers the messages that it takes.
use openframe_adapters.Prelude.{
  ◌≡◌, refl, sym, ap, ◌∙◌, Bool, true, false, none, some, arith, Option, List, [], ◌∷◌, ◌++◌, map,
  inl, inr, if◌then◌else◌,
}
use mathlib.Core.List.{append_assoc, append-nil}
use openframe_adapters.Effect.{Outcome, ok, raised, Action, Outcome-cases}
use openframe_adapters.Effect.Errors.{Failure, outside}
use openframe_adapters.Effect.Iteration.{Arrival, delivers, breaks, taken}
use openframe_adapters.Rabbitmq.Driver.{Driver, RabbitmqSettings}
use openframe_adapters.Rabbitmq.Errors.{catches}
use openframe_adapters.Rabbitmq.Consumer.{
  Consumer, ack, nack, settle, consume, close, close_connection, drop_channel, drop_connection,
}

module _ {N H Q I M Y S X T : Type 0} (d : Driver N H Q I M Y S X) (settings : RabbitmqSettings)
    (deserialise : Y → Outcome X T)
    (handler : T → Action (Consumer N H Q M × S) (Failure X) (Unit {0})) where
  -- `log` is the list of answers that the broker was sent, each a message and whether it was an `ack`.
  -- The calls of the driver enter them there, also where the call then raises, and nothing else does;
  -- the trace context succeeds; every exception is an `Exception`; and the handler answers nothing and
  -- leaves the consumer as it is: it returns for the messages that it accepts and raises `fault` for
  -- others.
  pub record Answers (log : S → List (M × Bool)) (accepts : T → Bool) (fault : T → X) : Type 0 where
    pub ack_logs : (m : M) (s : S) → log (d.ack m s).1 ≡ log s ++ ((m, true) ∷ [])
    pub nack_logs : (m : M) (s : S) → log (d.nack m s).1 ≡ log s ++ ((m, false) ∷ [])
    pub attach_returns : (m : M) (s : S) → (d.attach m s).0 ≡ ok tt
    pub attach_keeps : (m : M) (s : S) → log (d.attach m s).1 ≡ log s
    pub detach_returns : (s : S) → (d.detach s).0 ≡ ok tt
    pub detach_keeps : (s : S) → log (d.detach s).1 ≡ log s
    pub close_channel_keeps : (h : H) (s : S) → log (d.close_channel h s).1 ≡ log s
    pub close_connection_keeps : (n : N) (s : S) → log (d.close_connection n s).1 ≡ log s
    pub handler_outcome :
        (t : T) (w : Consumer N H Q M × S)
        → (handler t w).0 ≡ (if accepts t then ok tt else raised (outside (fault t)))
    pub handler_keeps : (t : T) (w : Consumer N H Q M × S) → log (handler t w).1.1 ≡ log w.1
    pub handler_consumer : (t : T) (w : Consumer N H Q M × S) → (handler t w).1.0 ≡ w.0
    pub all_exceptions : (x : X) → catches d x ≡ true

  -- A message that deserialises and that the handler accepts.
  abbrev pub succeeds : (T → Bool) → M → Bool
  succeeds accepts m = elim (deserialise (d.body m)) [ ok t ↦ accepts t | raised x ↦ false ]

  abbrev pub answers : (T → Bool) → List M → List (M × Bool)
  answers accepts ms = map (λ m. (m, succeeds accepts m)) ms

  module _ {log : S → List (M × Bool)} {accepts : T → Bool} {fault : T → X}
      (a : Answers log accepts fault) where
    ack_answers :
        (m : M) (w : Consumer N H Q M × S)
        → w.0.current_raw_message ≡ some m
        → let (r, u) = ack d settings w in
          (r ≡ ok tt) × (log u.1 ≡ log w.1 ++ ((m, true) ∷ [])) × (u.0 ≡ w.0)
    unfolding ack
    ack_answers m w e = grind (arith, e, a.ack_logs, a.all_exceptions)

    nack_answers :
        (m : M) (w : Consumer N H Q M × S)
        → w.0.current_raw_message ≡ some m
        → let (r, u) = nack d settings w in
          (r ≡ ok tt) × (log u.1 ≡ log w.1 ++ ((m, false) ∷ [])) × (u.0 ≡ w.0)
    unfolding nack
    nack_answers m w e = grind (arith, e, a.nack_logs, a.all_exceptions)

    handled :
        (t : T) (m : M) (w : Consumer N H Q M × S)
        → deserialise (d.body m) ≡ ok t
        → let (r, u) = settle d settings deserialise handler m w in
          (r ≡ ok tt)
          × (log u.1 ≡ log w.1 ++ ((m, accepts t) ∷ []))
          × (u.0 ≡ record w.0 { current_raw_message = some m })
    unfolding settle
    handled t m w decoded =
        let c : Consumer N H Q M = record w.0 { current_raw_message = some m } in
        let v : Consumer N H Q M × S = (c, (d.attach m w.1).1) in
        let u = (handler t v).1 in
        let same = a.handler_consumer t v in
        let after : Consumer N H Q M × S = (c, (d.detach u.1).1) in
        ground (
          arith,
          a.attach_returns m w.1,
          a.attach_keeps m w.1,
          a.handler_outcome t v,
          a.handler_keeps t v,
          same,
          a.detach_returns u.1,
          a.detach_keeps u.1,
          ack_answers m after refl,
          nack_answers m after refl,
          a.all_exceptions (fault t),
        )

    malformed :
        (x : X) (m : M) (w : Consumer N H Q M × S)
        → deserialise (d.body m) ≡ raised x
        → let (r, u) = settle d settings deserialise handler m w in
          (r ≡ ok tt)
          × (log u.1 ≡ log w.1 ++ ((m, false) ∷ []))
          × (u.0 ≡ record w.0 { current_raw_message = some m })
    unfolding settle
    malformed x m w broken =
        let c : Consumer N H Q M = record w.0 { current_raw_message = some m } in
        ground (arith, broken, nack_answers m (c, w.1) refl, a.all_exceptions x)

    settle_answers :
        (m : M) (w : Consumer N H Q M × S)
        → let (r, u) = settle d settings deserialise handler m w in
          (r ≡ ok tt)
          × (log u.1 ≡ log w.1 ++ ((m, succeeds accepts m) ∷ []))
          × (u.0 ≡ record w.0 { current_raw_message = some m })
    settle_answers m w = elim (Outcome-cases (deserialise (d.body m))) [
      | inl (t, p) ↦ let (x, y, z) = handled t m w p in (x, ground (arith, y, p), z)
      | inr (x, p) ↦ let (x, y, z) = malformed x m w p in (x, ground (arith, y, p), z)
    ]

    drop_channel_keeps :
        (o : Option H) (w : Consumer N H Q M × S)
        → let (r, u) = drop_channel d settings o w in
          (r ≡ ok tt) × (log u.1 ≡ log w.1) × (u.0.running ≡ w.0.running)
    drop_channel_keeps none w = (refl, refl, refl)
    drop_channel_keeps (some h) w = grind (arith, a.close_channel_keeps, a.all_exceptions)

    drop_connection_keeps :
        (o : Option N) (w : Consumer N H Q M × S)
        → let (r, u) = drop_connection d settings o w in
          (r ≡ ok tt) × (log u.1 ≡ log w.1) × (u.0.running ≡ w.0.running)
    drop_connection_keeps none w = (refl, refl, refl)
    drop_connection_keeps (some n) w = grind (arith, a.close_connection_keeps, a.all_exceptions)

    close_stops_loop :
        (w : Consumer N H Q M × S)
        → let (r, u) = close d settings w in
          (r ≡ ok tt) × (log u.1 ≡ log w.1) × (u.0.running ≡ false)
    unfolding close close_connection
    close_stops_loop w =
        let v : Consumer N H Q M × S = (record w.0 { running = false }, w.1) in
        let u = (drop_channel d settings w.0.channel v).1 in
        let (x, y, z) = drop_channel_keeps w.0.channel v in
        let (x', y', z') = drop_connection_keeps u.0.connection u in
        (
          ground (arith, x, y, z, x', y', z'),
          ground (arith, x, y, z, x', y', z'),
          ground (arith, x, y, z, x', y', z'),
        )

    -- On a running consumer, while the broker is sent no answers but by `ack` and `nack` of a
    -- message, the handler leaves the consumer as it is, the trace context raises nothing and
    -- every exception is an `Exception`: the message loop sends the broker an ack for each message
    -- that deserialises and whose handler returns and a requeueing nack for each other one, for
    -- the messages that arrive before another task calls `close` or the iterator breaks off, each
    -- once and in the order of delivery.
    pub consume_replies :
        (arrivals : List (Arrival M X)) (w : Consumer N H Q M × S)
        → w.0.running ≡ true
        → log (consume d settings deserialise handler arrivals w).1.1
          ≡ log w.1 ++ answers accepts (taken arrivals)
    unfolding consume
    consume_replies [] w on = sym (append-nil (log w.1))
    consume_replies (breaks true x ∷ rest) w on =
        ground (arith, close_stops_loop w, append-nil (log w.1))
    consume_replies (breaks false x ∷ rest) w on = sym (append-nil (log w.1))
    consume_replies (delivers true m ∷ rest) w on =
        ground (arith, close_stops_loop w, append-nil (log w.1))
    consume_replies (delivers false m ∷ rest) w on =
        let u = (settle d settings deserialise handler m w).1 in
        let (x, y, z) = settle_answers m w in
        ground (
          arith,
          on,
          x,
          y,
          consume_replies rest u (ap (λ c. c.running) z ∙ on),
          append_assoc (log w.1) ((m, succeeds accepts m) ∷ []) (answers accepts (taken rest)),
        )
