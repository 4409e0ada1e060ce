-- ===== src/Nats/Publishing.antt =====
-- `publish` and `publish_batch`: what reaches JetStream, in which order, and what is raised.
use openframe_adapters.Prelude.{
  Option-cases, if◌then◌else◌, ◌≡◌, refl, ◌∙◌, true, some, arith, List, [], ◌∷◌, ◌++◌, inl, inr,
}
use openframe_adapters.Effect.{
  Outcome, ok, raised, Action, ◌>>◌, pure, bind-step, bind-ok, ran-cases,
}
use openframe_adapters.Effect.Errors.{Failure, timeout_error, connection_error, query_error}
use openframe_adapters.Nats.Driver.{Driver, NatsSettings, asyncio_timeout, nats_error}
use openframe_adapters.Nats.Errors.{wrap_nats, failure, is_connection_error}
use openframe_adapters.Nats.Producer.{
  send, Producer, publish, publish_each, publish_batch, publish_failed,
}

module _ {N J B M Y S X T : Type 0} (d : Driver N J B M Y S X) (settings : NatsSettings)
    (serialise : T → Outcome X Y) where
  abbrev World : Type 0
  World = Producer N J × S

  -- The batch loop over two lists is the loop over the first and then over the second.
  publish_each-append :
      (j : J) (xs ys : List T) (w : World)
      → publish_each d settings serialise j (xs ++ ys) w
        ≡ (publish_each d settings serialise j xs >> publish_each d settings serialise j ys) w
  unfolding publish_each
  publish_each-append j [] ys w = refl
  publish_each-append j (x ∷ xs) ys w =
      ground (arith, publish_each-append j xs ys (send d settings serialise j x w).1)

  publish_each_failed :
      (j : J) (y : T) (ys : List T) (w : World) {e : Failure X} {w' : World}
      → send d settings serialise j y w ≡ (raised e, w')
      → publish_each d settings serialise j (y ∷ ys) w ≡ (raised e, w')
  unfolding publish_each
  publish_each_failed j y ys w h = ground arith

  -- Messages published one after the other by `publish`.
  unfoldable pub publish_in_turn : List T → Action World (Failure X) (Unit {0})
  publish_in_turn [] = pure tt
  publish_in_turn (m ∷ ms) = do publish d settings serialise m; publish_in_turn ms

  -- Where the JetStream publish of a started producer raises an error of nats-py, `publish` raises
  -- a timeout error, a connection error or a query error, decided in this order, with the
  -- exception as its cause.
  pub publish_classifies :
      (p : Producer N J) (m : T) {j : J} {v : Y} (s : S) {s' : S} {x : X}
      → p.js ≡ some j
      → serialise m ≡ ok v
      → d.publish j settings.nats_subject v s ≡ (raised x, s')
      → d.isinstance x nats_error ≡ true
      → publish d settings serialise m (p, s) ≡ (
        raised (
            failure d settings
              (if d.isinstance x asyncio_timeout
                then timeout_error
                else if is_connection_error d x
                then connection_error
                else query_error)
              "publish"
              (some x)),
        (p, s'),
      )
  unfolding publish wrap_nats
  publish_classifies p m s started serialised lost listed = ground arith

  module _ (w : World) {j : J} (started : w.0.js ≡ some j) where
    -- A batch on a started producer of messages that are sent, then one that fails, then any
    -- others: nothing is sent after the one that fails, what was sent stays sent, and its
    -- exception goes through the `except` clauses.
    pub publish_batch_stops :
        (xs : List T) (y : T) (ys : List T) {w' w'' : World} {e : Failure X}
        → publish_each d settings serialise j xs w ≡ (ok tt, w')
        → send d settings serialise j y w' ≡ (raised e, w'')
        → publish_batch d settings serialise (xs ++ (y ∷ ys)) w
          ≡ publish_failed d settings "publish_batch" e w''
    unfolding publish_batch
    publish_batch_stops xs y ys {w'} sent lost =
        ground (arith, publish_each-append j xs (y ∷ ys) w, publish_each_failed j y ys w' lost)

  -- The driver's calls leave the producer as it is.
  send-fst : (j : J) (m : T) (w : World) → (send d settings serialise j m w).1.0 ≡ w.0
  unfolding send
  send-fst j m w = ground arith

  publish-send :
      (j : J) (m : T) (w : World) {w' : World}
      → w.0.js ≡ some j
      → send d settings serialise j m w ≡ (ok tt, w')
      → publish d settings serialise m w ≡ (ok tt, w')
  unfolding publish send
  publish-send j m w started h = ground arith

  publish_each_in_turn :
      (j : J) (ms : List T) (w : World) {w' : World}
      → w.0.js ≡ some j
      → publish_each d settings serialise j ms w ≡ (ok tt, w')
      → publish_in_turn ms w ≡ (ok tt, w')
  unfolding publish_each publish_in_turn
  publish_each_in_turn j [] w started h = h
  publish_each_in_turn j (m ∷ ms) w {w'} started h =
      let (a, u, p, q) =
        bind-ok (send d settings serialise j m) (λ _. publish_each d settings serialise j ms) w h in
      bind-step (publish d settings serialise m) (λ _. publish_in_turn ms) w
        (publish-send j m w started (ground arith))
      ∙ publish_each_in_turn j ms u (ground (arith, send-fst j m w)) q

  -- A batch that returns leaves the world that publishing its messages one by one with `publish`
  -- leaves.
  pub publish_batch_in_turn :
      (ms : List T) (w : World) {w' : World}
      → publish_batch d settings serialise ms w ≡ (ok tt, w')
      → publish_in_turn ms w ≡ (ok tt, w')
  unfolding publish_batch
  publish_batch_in_turn ms w {w'} h = elim (Option-cases w.0.js) [
    | inl stopped ↦ absurd (ground arith)
    | inr (j, started) ↦ publish_each_in_turn j ms w started (published j started)
  ]
    where
      published : (j : J) → w.0.js ≡ some j → publish_each d settings serialise j ms w ≡ (ok tt, w')
      published j started = elim (ran-cases (publish_each d settings serialise j ms w)) [
        | inl (a, e) ↦ ground arith
        | inr (e, p) ↦ absurd (ground arith)
      ]
