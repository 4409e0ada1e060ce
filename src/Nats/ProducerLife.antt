-- ===== src/Nats/ProducerLife.antt =====
-- Starting and closing a producer: what it holds afterwards, and the connection that a failed start
-- drops.
use openframe_adapters.Prelude.{◌≡◌, Bool, true, false, none, some, arith, Option}
use openframe_adapters.Effect.{Outcome, ok, raised}
use openframe_adapters.Effect.Errors.{Failure, outside, configuration_error, is_exception}
use openframe_adapters.Nats.Driver.{
  Driver, NatsSettings, asyncio_timeout, nats_error, no_servers, bad_request,
}
use openframe_adapters.Nats.Errors.{catches, failure, connect_args, ensure_stream}
use openframe_adapters.Nats.Producer.{Producer, stopped_producer, start, close}

abbrev pub present : {A : Type 0} → Option A → Bool
present none = false
present (some a) = true

-- The client and the context are there together or not at all.
abbrev pub IsPaired : {N J : Type 0} → Producer N J → Type 0
IsPaired p = present p.nc ≡ present p.js

module _ {N J B M Y S X : Type 0} (d : Driver N J B M Y S X) (settings : NatsSettings) where
  -- `start` and `close` keep the client and the context of a producer together, however they end.
  pub start_close-IsPaired :
      (w : Producer N J × S)
      → IsPaired w.0
      → IsPaired (start d settings w).1.0 × IsPaired (close d settings w).1.0
  unfolding start close ensure_stream
  start_close-IsPaired w h = (ground arith, ground arith)

  -- What a `start` leaves, by how it ended.
  abbrev pub Started : Outcome (Failure X) (Unit {0}) → Producer N J → Type 0
  Started (ok _) p = present p.js ≡ true
  Started (raised (outside x)) p =
      (d.isinstance x asyncio_timeout ≡ false) × (d.isinstance x nats_error ≡ false)
  Started (raised e) p = p ≡ stopped_producer

  -- A `start` that returns leaves a producer with its context, one that raises an error of
  -- openframe-core leaves a stopped one, and what else it raises is neither a timeout nor an error
  -- of nats-py.
  pub start_ends : (w : Producer N J × S) → Started (start d settings w).0 (start d settings w).1.0
  unfolding start ensure_stream
  start_ends w = ground arith

  -- `close` of a producer whose client and context are there together or not at all leaves a
  -- stopped one and raises only what `except Exception` passes by; a second `close` does nothing.
  pub close_stops :
      (w : Producer N J × S)
      → IsPaired w.0
      → ((close d settings w).1.0 ≡ stopped_producer)
        × ((e : Failure X) → (close d settings w).0 ≡ raised e → is_exception (catches d) e ≡ false)
        × (close d settings (close d settings w).1 ≡ (ok tt, (close d settings w).1))
  unfolding close
  close_stops w h = (ground arith, λ e r. ground arith, ground arith)

  -- Where the connection is made and JetStream then refuses the stream with an error of nats-py
  -- that is no bad request, no timeout and not a lack of servers, `start` raises a configuration
  -- error and drops the client without closing it, and `close` afterwards does nothing.
  pub start_drops_connection :
      (p : Producer N J) {nc : N} (s : S) {s' s'' : S} {x : X}
      → d.connect (connect_args settings) s ≡ (ok nc, s')
      → d.add_stream (d.jetstream nc) settings.nats_stream settings.nats_subject s'
        ≡ (raised x, s'')
      → d.isinstance x nats_error ≡ true
      → d.isinstance x bad_request ≡ false
      → d.isinstance x asyncio_timeout ≡ false
      → d.isinstance x no_servers ≡ false
      → (start d settings (p, s)
          ≡ (raised (failure d settings configuration_error "start" none), (stopped_producer, s'')))
        × (close d settings (start d settings (p, s)).1 ≡ (ok tt, (stopped_producer, s'')))
  unfolding start close ensure_stream
  start_drops_connection p s connected refused nats fresh waited served =
      (ground arith, ground arith)
