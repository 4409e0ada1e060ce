-- ===== src/Redis/Alone.antt =====
-- A task of `Redis/Race.antt` that runs while no other does: where its steps lead.
use openframe_adapters.Prelude.{ℕ, ◌≡◌, none, arith, inl, inr, refl, Option-cases}
use openframe_adapters.Effect.{Outcome, ok, raised, ran-cases}
use openframe_adapters.Effect.Errors.{Failure}
use openframe_adapters.Redis.Driver.{Driver, RedisSettings}
use openframe_adapters.Redis.Connection.{key_eq, World, open_client, get_redis_client}
use openframe_adapters.Redis.Race.{
  Progress, waiting, pinging, returned, failed, becomes, Move, hit, make, cannot_make, reply,
  no_reply, Tasks, cached,
}

module _ {C S X : Type 0} (d : Driver C S X) (settings : RedisSettings) where
  -- Where the outcome of a call leaves a task.
  abbrev pub finished : Outcome (Failure X) C → Progress C X
  finished (ok c) = returned c
  finished (raised e) = failed e

  -- The steps of the task `i` and of no other, from `t`.
  pub data Solo (i : ℕ) (t : Tasks d settings) : (Tasks d settings) → Type 0 where
    begun : Solo i t t
    goes_on :
        {u : Tasks d settings} {w : World C S} {p : Progress C X}
        → Solo i t u
        → Move d settings u.world (u.progress i) w p
        → Solo i t (record { world = w; progress = becomes u.progress i p })

  -- The state that a call of `get_redis_client` in `t` by the task `i` leaves.
  abbrev pub HasCalled : (Tasks d settings) → ℕ → (Tasks d settings) → Type 0
  HasCalled t i u =
      (u.world ≡ (get_redis_client d settings t.world).1)
      × (u.progress i ≡ finished (get_redis_client d settings t.world).0)

  -- From `u` the task `i`, by its own steps, comes to where a call in `t` leaves it.
  abbrev pub Ends : (Tasks d settings) → ℕ → (Tasks d settings) → Type 0
  Ends t i u = (v : Tasks d settings) × Solo i u v × HasCalled t i v

  -- How far the task `i` is.
  data Stage (t : Tasks d settings) (i : ℕ) (u : Tasks d settings) : Type 0 where
    at_start : u.world ≡ t.world → u.progress i ≡ waiting → Stage t i u
    at_ping :
        (c : C)
        → cached d settings t ≡ none
        → d.from_url settings t.world.server ≡ (ok c, u.world.server)
        → u.world.client_cache ≡ t.world.client_cache
        → u.progress i ≡ pinging c
        → Stage t i u
    at_end : HasCalled t i u → Stage t i u

  then_alone :
      {t : Tasks d settings} (u : Tasks d settings) (i : ℕ) {p : Progress C X} {w : World C S}
      {p' : Progress C X}
      → Solo i t u
      → u.progress i ≡ p
      → Move d settings u.world p w p'
      → Solo i t (record { world = w; progress = becomes u.progress i p' })
  then_alone u i r at m = goes_on r (rw at m)

  -- A task that has finished takes no step.
  finished-Move :
      (o : Outcome (Failure X) C) {p : Progress C X} {w w' : World C S} {p' : Progress C X}
      → p ≡ finished o
      → Move d settings w p w' p'
      → ⊥
  finished-Move (ok c) e (hit h) = cc
  finished-Move (ok c) e (make h m) = cc
  finished-Move (ok c) e (cannot_make h m) = cc
  finished-Move (ok c) e (reply h) = cc
  finished-Move (ok c) e (no_reply h) = cc
  finished-Move (raised x) e (hit h) = cc
  finished-Move (raised x) e (make h m) = cc
  finished-Move (raised x) e (cannot_make h m) = cc
  finished-Move (raised x) e (reply h) = cc
  finished-Move (raised x) e (no_reply h) = cc

  Move-Stage :
      (t u : Tasks d settings) (i : ℕ) {p : Progress C X} {w : World C S} {p' : Progress C X}
      → u.progress i ≡ p
      → Move d settings u.world p w p'
      → Stage t i u
      → Stage t i (record { world = w; progress = becomes u.progress i p' })
  unfolding get_redis_client open_client
  Move-Stage t u i at (hit h) (at_start a b) = at_end (ground arith, ground arith)
  Move-Stage t u i at (make {c} {s} h e) (at_start a b) =
      at_ping c (ground arith) (ground arith) (ground arith) (ground arith)
  Move-Stage t u i at (cannot_make h e) (at_start a b) = at_end (ground arith, ground arith)
  Move-Stage t u i at (reply h) (at_start a b) = absurd (cc)
  Move-Stage t u i at (no_reply h) (at_start a b) = absurd (cc)
  Move-Stage t u i at (hit h) (at_ping c cold made same b) = absurd (cc)
  Move-Stage t u i at (make h e) (at_ping c cold made same b) = absurd (cc)
  Move-Stage t u i at (cannot_make h e) (at_ping c cold made same b) = absurd (cc)
  Move-Stage t u i at (reply h) (at_ping c cold made same b) = at_end (ground arith, ground arith)
  Move-Stage t u i at (no_reply h) (at_ping c cold made same b) =
      at_end (ground arith, ground arith)
  Move-Stage t u i at m (at_end e) =
      absurd (finished-Move (get_redis_client d settings t.world).0 (ground (arith, at, e.1)) m)

  Solo-Stage :
      {t : Tasks d settings} {i : ℕ} {u : Tasks d settings}
      → t.progress i ≡ waiting
      → Solo i t u
      → Stage t i u
  Solo-Stage at begun = at_start refl at
  Solo-Stage at (goes_on r m) = Move-Stage _ _ _ refl m (Solo-Stage at r)

  ping-Ends :
      (t u v : Tasks d settings) (i : ℕ) (c : C)
      → Solo i u v
      → cached d settings t ≡ none
      → d.from_url settings t.world.server ≡ (ok c, v.world.server)
      → v.world.client_cache ≡ t.world.client_cache
      → v.progress i ≡ pinging c
      → Ends t i u
  unfolding get_redis_client open_client
  ping-Ends t u v i c r cold made same b = elim (ran-cases (d.ping c v.world.server)) [
    | inl (_, e) ↦ (_, then_alone v i r b (reply e), (ground arith, ground arith))
    | inr (x, e) ↦ (_, then_alone v i r b (no_reply e), (ground arith, ground arith))
  ]

  Stage-Ends : (t u : Tasks d settings) (i : ℕ) → Stage t i u → Ends t i u
  unfolding get_redis_client open_client
  Stage-Ends t u i (at_start a b) = elim (Option-cases (cached d settings u)) [
    | inl cold ↦ elim (ran-cases (d.from_url settings u.world.server)) [
      | inl (c, e) ↦
          ping-Ends t u _ i c (then_alone u i begun b (make cold e)) (ground arith) (ground arith)
            (ground arith) (ground arith)
      | inr (x, e) ↦ (_, then_alone u i begun b (cannot_make cold e), (ground arith, ground arith))
    ]
    | inr (c, e) ↦ (_, then_alone u i begun b (hit e), (ground arith, ground arith))
  ]
  Stage-Ends t u i (at_ping c cold made same b) = ping-Ends t u u i c begun cold made same b
  Stage-Ends t u i (at_end e) = (u, begun, e)

  -- A task begins `get_redis_client` and no other takes a step: from every point that its steps
  -- can reach, its further steps lead to where a call of `get_redis_client` in the world at the
  -- beginning leaves it, with the same world and the same client returned or exception raised.
  pub runs_alone :
      (t u : Tasks d settings) (i : ℕ) → t.progress i ≡ waiting → Solo i t u → Ends t i u
  runs_alone t u i at r = Stage-Ends t u i (Solo-Stage at r)
