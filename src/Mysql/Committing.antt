-- ===== src/Mysql/Committing.antt =====
-- What is committed when a write of the repository returns, and when it raises.
use openframe_adapters.Prelude.{◌≡◌, ◌∙◌, ◌⊎◌, inl, inr, List, Text, arith}
use openframe_adapters.Effect.{Outcome, ok, raised, Action, ran-cases}
use openframe_adapters.Effect.Errors.{Failure, outside}
use openframe_adapters.Sql.{Argument}
use openframe_adapters.Mysql.Driver.{Driver, PoolArgs}
use openframe_adapters.Mysql.Connection.{World}
use openframe_adapters.Mysql.Cursors.{with_connection, with_cursor, writing}

module _ {C K U V R S X D : Type 0} (d : Driver C K U V R S X) (committed : S → D) where
  -- Documented: autocommit being off, what is committed changes only by `commit`. Giving back a
  -- connection does not raise.
  pub record Transactional : Type 0 where
    pub create_pool_keeps : (a : PoolArgs) (s : S) → committed (d.create_pool a s).1 ≡ committed s
    pub acquire_keeps : (c : C) (s : S) → committed (d.acquire c s).1 ≡ committed s
    pub release_keeps : (c : C) (k : K) (s : S) → committed (d.release c k s).1 ≡ committed s
    pub release_returns : (c : C) (k : K) (s : S) → (d.release c k s).0 ≡ ok tt
    pub cursor_keeps : (k : K) (s : S) → committed (d.cursor k s).1 ≡ committed s
    pub close_cursor_keeps : (u : U) (s : S) → committed (d.close_cursor u s).1 ≡ committed s
    pub execute_keeps :
        (u : U) (q : Text) (a : List (Argument V)) (s : S)
        → committed (d.execute u q a s).1 ≡ committed s
    pub fetchone_keeps : (u : U) (s : S) → committed (d.fetchone u s).1 ≡ committed s

  -- A `commit` that returned took the one to the other; one that raised did.
  abbrev pub Commits : S → S → Type 0
  Commits s t =
      (k : K) × (v : S) × (v' : S) × (d.commit k v ≡ (ok tt, v'))
      × (committed v ≡ committed s)
      × (committed t ≡ committed v')

  abbrev pub InDoubt : S → S → Type 0
  InDoubt s t =
      (k : K) × (v : S) × (x : X) × (v' : S) × (d.commit k v ≡ (raised x, v'))
      × (committed v ≡ committed s)
      × (committed t ≡ committed v')

  abbrev pub Keeps : {A : Type 0} → Action (World C S) (Failure X) A → Type 0
  Keeps m = (w : World C S) → committed (m w).1.1 ≡ committed w.1

  -- What `writing` does, whatever it raises.
  abbrev pub Ended : {A : Type 0} → Outcome (Failure X) A → S → S → Type 0
  Ended (ok a) s t = Commits s t
  Ended (raised e) s t = (committed t ≡ committed s) ⊎ InDoubt s t

  module _ (t : Transactional) where
    cursor_ends :
        {A : Type 0} (k : K) (body : U → Action (World C S) (Failure X) A)
        → ((u : U) → Keeps (body u))
        → Keeps (with_cursor d k body)
    unfolding with_cursor
    cursor_ends k body keeps w = grind (arith, t.cursor_keeps, t.close_cursor_keeps, keeps)

    -- The three ways through `writing` once the connection is there, the statements having left `v`.
    module _ {A : Type 0} (pool : C) (body : U → Action (World C S) (Failure X) A) (w : World C S)
        {k : K} {s : S} (acquired : d.acquire pool w.1 ≡ (ok k, s)) where
      statements_raise :
          {e : Failure X} {v : World C S}
          → with_cursor d k body (w.0, s) ≡ (raised e, v)
          → writing d pool body w ≡ (raised e, (v.0, (d.release pool k v.1).1))
      unfolding writing with_connection
      statements_raise {e} {v} h = ground (arith, t.release_returns pool k v.1)

      commit_raises :
          {a : A} {v : World C S} {x : X} {s' : S}
          → with_cursor d k body (w.0, s) ≡ (ok a, v)
          → d.commit k v.1 ≡ (raised x, s')
          → writing d pool body w ≡ (raised (outside x), (v.0, (d.release pool k s').1))
      unfolding writing with_connection
      commit_raises {a} {v} {x} {s'} h c = ground (arith, t.release_returns pool k s')

      commit_returns :
          {a : A} {v : World C S} {s' : S}
          → with_cursor d k body (w.0, s) ≡ (ok a, v)
          → d.commit k v.1 ≡ (ok tt, s')
          → writing d pool body w ≡ (ok a, (v.0, (d.release pool k s').1))
      unfolding writing with_connection
      commit_returns {a} {v} {s'} h c = ground (arith, t.release_returns pool k s')

    not_acquired :
        {A : Type 0} (pool : C) (body : U → Action (World C S) (Failure X) A) (w : World C S)
        {x : X} {s : S}
        → d.acquire pool w.1 ≡ (raised x, s)
        → writing d pool body w ≡ (raised (outside x), (w.0, s))
    unfolding writing with_connection
    not_acquired pool body w h = ground arith

    pub writing_ends :
        {A : Type 0} (pool : C) (body : U → Action (World C S) (Failure X) A) (w : World C S)
        → ((u : U) → Keeps (body u))
        → Ended (writing d pool body w).0 w.1 (writing d pool body w).1.1
    writing_ends pool body w keeps = elim (ran-cases (d.acquire pool w.1)) [
      | inr (x, e) ↦ rw (not_acquired pool body w e) (inl (t.acquire_keeps pool w.1))
      | inl (k, e) ↦
          let s = (d.acquire pool w.1).1 in
          let v = (with_cursor d k body (w.0, s)).1 in
          let same = cursor_ends k body keeps (w.0, s) ∙ t.acquire_keeps pool w.1 in
          elim (ran-cases (with_cursor d k body (w.0, s))) [
            | inr (f, h) ↦
                rw (statements_raise pool body w e h) (inl (t.release_keeps pool k v.1 ∙ same))
            | inl (a, h) ↦ elim (ran-cases (d.commit k v.1)) [
              | inr (x, c) ↦
                  rw (commit_raises pool body w e h c)
                    (inr (k, v.1, x, (d.commit k v.1).1, c, same, t.release_keeps pool k _))
              | inl (u, c) ↦
                  rw (commit_returns pool body w e h c)
                    (k, v.1, (d.commit k v.1).1, c, same, t.release_keeps pool k _)
            ]
          ]
    ]
