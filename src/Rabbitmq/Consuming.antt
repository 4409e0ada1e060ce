-- ===== src/Rabbitmq/Consuming.antt =====
-- What `subscribe` leaves, and a connection that it drops.
use openframe_adapters.Prelude.{Option-cases, ◌≡◌, true, false, none, arith, List, inl, inr}
use openframe_adapters.Effect.{Outcome, ok, raised, Action, ran-cases}
use openframe_adapters.Effect.Errors.{Failure}
use openframe_adapters.Effect.Iteration.{Arrival}
use openframe_adapters.Rabbitmq.Driver.{Driver, RabbitmqSettings}
use openframe_adapters.Rabbitmq.Errors.{catches, is_listed, wrap_rabbitmq}
use openframe_adapters.Rabbitmq.Consumer.{
  Consumer, connect, close, close_connection, drop_channel, drop_connection, iterate, tear_down,
  subscribe,
}

module _ {N H Q I M Y S X : Type 0} (d : Driver N H Q I M Y S X) (settings : RabbitmqSettings) where
  -- Documented: closing a channel or a connection raises nothing but `Exception`s.
  pub record ClosesQuietly : Type 0 where
    pub channel_raises :
        (h : H) (s : S) (x : X) (s' : S) → d.close_channel h s ≡ (raised x, s') → catches d x ≡ true
    pub connection_raises :
        (n : N) (s : S) (x : X) (s' : S)
        → d.close_connection n s ≡ (raised x, s')
        → catches d x ≡ true

  drop_channel_quiet :
      ClosesQuietly
      → (w : Consumer N H Q M × S)
      → let (r, u) = drop_channel d settings w.0.channel w in
        (r ≡ ok tt) × (u.0 ≡ record w.0 { channel = none })
  drop_channel_quiet q w = elim (Option-cases w.0.channel) [
    | inl e ↦ (ground (arith, e), ground (arith, e))
    | inr (h, e) ↦ elim (ran-cases (d.close_channel h w.1)) [
      | inl (a, p) ↦ (ground (arith, e), ground (arith, e))
      | inr (x, p) ↦
          let c = q.channel_raises _ _ _ _ p in (ground (arith, e, c), ground (arith, e, c))
    ]
  ]

  drop_connection_quiet :
      ClosesQuietly
      → (w : Consumer N H Q M × S)
      → let (r, u) = drop_connection d settings w.0.connection w in
        (r ≡ ok tt) × (u.0 ≡ record w.0 { connection = none })
  drop_connection_quiet q w = elim (Option-cases w.0.connection) [
    | inl e ↦ (ground (arith, e), ground (arith, e))
    | inr (n, e) ↦ elim (ran-cases (d.close_connection n w.1)) [
      | inl (a, p) ↦ (ground (arith, e), ground (arith, e))
      | inr (x, p) ↦
          let c = q.connection_raises _ _ _ _ p in (ground (arith, e, c), ground (arith, e, c))
    ]
  ]

  close_connection_quiet :
      ClosesQuietly
      → (w : Consumer N H Q M × S)
      → let (r, u) = close_connection d settings w in
        (r ≡ ok tt) × (u.0 ≡ record w.0 { channel = none; connection = none; queue = none })
  unfolding close_connection
  close_connection_quiet q w =
      let (a, b) = drop_channel_quiet q w in
      let (a', b') = drop_connection_quiet q (drop_channel d settings w.0.channel w).1 in
      (ground (arith, a, b, a', b'), ground (arith, a, b, a', b'))

  tear_down_resets :
      ClosesQuietly
      → (w : Consumer N H Q M × S)
      → let (r, u) = tear_down d settings w in
        (r ≡ ok tt)
        × (u.0 ≡ record w.0 { channel = none; connection = none; queue = none; running = false })
  unfolding tear_down
  tear_down_resets q w =
      let (a, b) = close_connection_quiet q w in (ground (arith, a, b), ground (arith, a, b))

  module _ {T : Type 0} (deserialise : Y → Outcome X T)
      (handler : T → Action (Consumer N H Q M × S) (Failure X) (Unit {0})) where
    -- Once its queue is declared, where closing raises nothing but `Exception`s, `subscribe` ends
    -- with no connection, channel or queue and not running, and raises exactly what the iteration
    -- raised.
    pub subscribe_releases :
        ClosesQuietly
        → (arrivals : List (Arrival M X)) (w : Consumer N H Q M × S) {u : Consumer N H Q M × S}
        → connect d settings w ≡ (ok tt, u)
        → let (r, w') = subscribe d settings deserialise handler arrivals w in
          (w'.0.connection ≡ none)
          × (w'.0.channel ≡ none)
          × (w'.0.queue ≡ none)
          × (w'.0.running ≡ false)
          × (r
              ≡ (iterate d settings deserialise handler arrivals
                  (record u.0 { running = true }, u.1)).0)
    unfolding subscribe
    subscribe_releases q arrivals w {u} h =
        let v : Consumer N H Q M × S = (record u.0 { running = true }, u.1) in
        let (a, b) = tear_down_resets q (iterate d settings deserialise handler arrivals v).1 in
        (
          ground (arith, a, b),
          ground (arith, a, b),
          ground (arith, a, b),
          ground (arith, a, b),
          ground (arith, a, b),
        )

    -- Where the connection to RabbitMQ is made and opening the channel then raises an exception
    -- that `subscribe` names, it raises the translated error having done nothing further to the
    -- world, and `close` afterwards does nothing to it either: the connection is never closed.
    pub subscribe_drops_connection :
        (arrivals : List (Arrival M X)) (w : Consumer N H Q M × S) {n : N} {x : X} {s s' : S}
        → d.connect_robust settings.rabbitmq_url settings.rabbitmq_reconnect_interval w.1
          ≡ (ok n, s)
        → d.channel n s ≡ (raised x, s')
        → is_listed d x ≡ true
        → let (r, u) = subscribe d settings deserialise handler arrivals w in
          (r ≡ raised (wrap_rabbitmq d settings x "subscribe"))
          × (u.1 ≡ s')
          × ((close d settings u).1.1 ≡ s')
    unfolding subscribe connect close close_connection
    subscribe_drops_connection arrivals w opened refused listed =
        (ground arith, ground arith, ground arith)
