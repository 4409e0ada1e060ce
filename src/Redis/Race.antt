-- ===== src/Redis/Race.antt =====
-- `get_redis_client` called by many tasks at once, for the same settings. A task gives way to the
-- others only where it awaits the ping: the test of the cache and the making of the client are one step,
-- the reply to the ping and the insertion another.
use openframe_adapters.Prelude.{
  ℕ, ◌≡◌, ◌≢◌, refl, ◌==◌, Bool-cases, true, false, Option, none, some, arith, inl, inr,
  if◌then◌else◌,
}
use openframe_adapters.Effect.{ok, raised}
use openframe_adapters.Effect.Errors.{Failure}
use openframe_adapters.Dict.{lookup, insert, lookup-insert_self}
use openframe_adapters.Redis.Driver.{Driver, RedisSettings}
use openframe_adapters.Redis.Connection.{key_eq, World, cache_key, connect_error}

-- Where a task stands in `get_redis_client`.
pub data Progress (C X : Type 0) : Type 0 where
  waiting : Progress C X
  pinging : C → Progress C X
  returned : C → Progress C X
  failed : Failure X → Progress C X

abbrev pub becomes : {A : Type 0} → (ℕ → A) → ℕ → A → ℕ → A
becomes f i a j = if i == j then a else f j

module _ {C S X : Type 0} (d : Driver C S X) (settings : RedisSettings) where
  -- One step of a task, in the process.
  pub data Move (w : World C S) : Progress C X → World C S → Progress C X → Type 0 where
    hit :
        {c : C}
        → lookup (cache_key settings) w.client_cache ≡ some c
        → Move w waiting w (returned c)
    make :
        {c : C} {s : S}
        → lookup (cache_key settings) w.client_cache ≡ none
        → d.from_url settings w.server ≡ (ok c, s)
        → Move w waiting (record w { server = s }) (pinging c)
    cannot_make :
        {x : X} {s : S}
        → lookup (cache_key settings) w.client_cache ≡ none
        → d.from_url settings w.server ≡ (raised x, s)
        → Move w waiting (record w { server = s }) (failed (connect_error d settings x))
    reply :
        {c : C} {s : S}
        → d.ping c w.server ≡ (ok tt, s)
        → Move w
            (pinging c)
            (record w { server = s; client_cache = insert (cache_key settings) c w.client_cache })
            (returned c)
    no_reply :
        {c : C} {x : X} {s : S}
        → d.ping c w.server ≡ (raised x, s)
        → Move w (pinging c) (record w { server = s }) (failed (connect_error d settings x))

  -- The process and its tasks, and what the event loop may do.
  pub record Tasks : Type 0 where
    pub world : World C S
    pub progress : ℕ → Progress C X

  pub data Step (t : Tasks) : Tasks → Type 0 where
    run :
        (i : ℕ) {w : World C S} {p : Progress C X}
        → Move t.world (t.progress i) w p
        → Step t (record { world = w; progress = becomes t.progress i p })

  pub data Reach (t : Tasks) : Tasks → Type 0 where
    here : Reach t t
    next : {u v : Tasks} → Reach t u → Step u v → Reach t v

  abbrev pub cached : Tasks → Option C
  cached t = lookup (cache_key settings) t.world.client_cache

  -- The client in the cache is one that a task has returned, and there is one if a task has.
  pub record IsShared (t : Tasks) : Type 0 where
    pub owned : (c : C) → cached t ≡ some c → (i : ℕ) × (t.progress i ≡ returned c)
    pub kept : (i : ℕ) (c : C) → t.progress i ≡ returned c → (c' : C) × (cached t ≡ some c')

  -- A task that stands at `p` is not one that has returned, unless `p` says so.
  other :
      (t : Tasks) (i j : ℕ) {p : Progress C X} {c : C}
      → t.progress i ≡ p
      → t.progress j ≡ returned c
      → p ≢ returned c
      → (i == j) ≡ false
  other t i j {p} {c} at there ne = elim (Bool-cases (i == j)) [
    | inl same ↦ absurd (ne (at_i same))
    | inr apart ↦ apart
  ]
    where
      at_i : (i == j) ≡ true → p ≡ returned c
      at_i same = let e : i ≡ j = ground arith in rw (← at, e) there

  -- A step in which the task `i` goes from a place where it has not returned to one where it has not,
  -- with the cache as it is.
  stays :
      (t : Tasks) (i : ℕ) (s : S) (p p' : Progress C X)
      → t.progress i ≡ p
      → ((c : C) → p ≢ returned c)
      → ((c : C) → p' ≢ returned c)
      → IsShared t
      → IsShared
          (record { world = record t.world { server = s }; progress = becomes t.progress i p' })
  stays t i s p p' at not_yet not_now shared = record {
    owned =
        λ c e. let (j, q) = shared.owned c e in (j, ground (arith, other t i j at q (not_yet c)));
    kept = λ j c q. elim (Bool-cases (i == j)) [
      | inl same ↦ absurd (not_now c (ground arith))
      | inr apart ↦ shared.kept j c (ground arith)
    ];
  }

  Move-IsShared :
      (t : Tasks) (i : ℕ) {p : Progress C X} {w : World C S} {p' : Progress C X}
      → t.progress i ≡ p
      → Move t.world p w p'
      → IsShared t
      → IsShared (record { world = w; progress = becomes t.progress i p' })
  Move-IsShared t i at (hit {c} h) shared = record {
    owned =
        λ c' e. let (j, q) = shared.owned c' e in (j, ground (arith, other t i j at q (λ h. cc)));
    kept = λ j c' q. elim (Bool-cases (i == j)) [
      | inl same ↦ (c, h)
      | inr apart ↦ shared.kept j c' (ground arith)
    ];
  }
  Move-IsShared t i at (make {c} {s} h e) shared =
      stays t i s waiting (pinging c) at (λ c h. cc) (λ c h. cc) shared
  Move-IsShared t i at (cannot_make {x} {s} h e) shared =
      stays t i s waiting (failed (connect_error d settings x)) at (λ c h. cc) (λ c h. cc) shared
  Move-IsShared t i at (reply {c} {s} e) shared =
      let self = lookup-insert_self (cache_key settings) c t.world.client_cache in
      record { owned = λ c' h. (i, ground (arith, self)); kept = λ j c' q. (c, self) }
  Move-IsShared t i at (no_reply {c} {x} {s} e) shared =
      stays t i s (pinging c) (failed (connect_error d settings x)) at (λ c h. cc) (λ c h. cc)
        shared

  -- However tasks that call `get_redis_client` for the same settings take turns, from where this
  -- holds, as it does of an empty cache before any has returned: the client in the cache is one
  -- that some task has returned, and if a task has returned one there is a client in the cache.
  pub Reach-IsShared : {t u : Tasks} → IsShared t → Reach t u → IsShared u
  Reach-IsShared shared here = shared
  Reach-IsShared shared (next r (run i m)) = Move-IsShared _ i refl m (Reach-IsShared shared r)

  step_at :
      (t : Tasks) (i : ℕ) {p : Progress C X} {w : World C S} {p' : Progress C X}
      → t.progress i ≡ p
      → Move t.world p w p'
      → Step t (record { world = w; progress = becomes t.progress i p' })
  step_at t i at m = run i (rw at m)

  -- With no client in the cache, where making two clients and both pings succeed, two tasks that
  -- are about to call `get_redis_client` may both find the cache without a client, make one each
  -- and return: the task that came first returns its own client, and the cache then holds the
  -- other's.
  pub second_client_replaces_first :
      (t : Tasks) (i j : ℕ) {a b : C} {s0 s1 s2 s3 : S}
      → t.progress i ≡ waiting
      → t.progress j ≡ waiting
      → i ≢ j
      → cached t ≡ none
      → d.from_url settings t.world.server ≡ (ok a, s0)
      → d.from_url settings s0 ≡ (ok b, s1)
      → d.ping a s1 ≡ (ok tt, s2)
      → d.ping b s2 ≡ (ok tt, s3)
      → (u : Tasks) × Reach t u
        × (u.progress i ≡ returned a)
        × (u.progress j ≡ returned b)
        × (cached u ≡ some b)
  second_client_replaces_first t i j {a} {b} first second apart cold make_a make_b ping_a ping_b =
      let t1 = step_at t i first (make cold make_a) in
      let t2 = step_at _ j {p = waiting} (ground arith) (make cold make_b) in
      let t3 = step_at _ i {p = pinging a} (ground arith) (reply ping_a) in
      let t4 = step_at _ j {p = pinging b} (ground arith) (reply ping_b) in
      (
        _,
        next (next (next (next here t1) t2) t3) t4,
        ground arith,
        ground arith,
        lookup-insert_self (cache_key settings) b _,
      )
