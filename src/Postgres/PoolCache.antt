-- ===== src/Postgres/PoolCache.antt =====
-- The pool cache under `get_postgres_pool` and `close`.
use openframe_adapters.Prelude.{◌≡◌, none, some, arith}
use openframe_adapters.Effect.{ok, raised}
use openframe_adapters.Effect.Errors.{outside}
use openframe_adapters.Dict.{lookup, lookup-insert_self, lookup-pop_self}
use openframe_adapters.Postgres.Driver.{Driver, PostgresSettings}
use openframe_adapters.Postgres.Connection.{World, pool_key, pool_key_eq, get_postgres_pool}
use openframe_adapters.Postgres.Repository.{close}

module _ {C K S V R X : Type 0} (d : Driver C K S V R X) (settings : PostgresSettings) where
  -- A cached pool is returned, and nothing happens.
  pub get_postgres_pool_hit :
      {c : C} (w : World C S)
      → lookup (pool_key settings) w.pool_cache ≡ some c
      → get_postgres_pool d settings w ≡ (ok c, w)
  unfolding get_postgres_pool
  get_postgres_pool_hit w h = rw (h, get_postgres_pool)

  -- A call that succeeds has its pool in the cache.
  pub get_postgres_pool_ok :
      {c : C} (w : World C S) {w' : World C S}
      → get_postgres_pool d settings w ≡ (ok c, w')
      → lookup (pool_key settings) w'.pool_cache ≡ some c
  unfolding get_postgres_pool
  get_postgres_pool_ok {c} w h =
      ground (arith, lookup-insert_self (pool_key settings) c w.pool_cache)

  -- Where closing the cached pool returns, `close` forgets it; where it raises, `close` raises the
  -- same exception, and the next `get_postgres_pool` returns the pool that failed to close.
  pub close_by_outcome :
      {c : C} (w : World C S)
      → lookup (pool_key settings) w.pool_cache ≡ some c
      → ((s : S)
          → d.close c w.database ≡ (ok tt, s)
          → ((close d settings w).0 ≡ ok tt)
            × (lookup (pool_key settings) (close d settings w).1.pool_cache ≡ none))
        × ((x : X) (s : S)
            → d.close c w.database ≡ (raised x, s)
            → ((close d settings w).0 ≡ raised (outside x))
              × (get_postgres_pool d settings (close d settings w).1
                  ≡ (ok c, (close d settings w).1)))
  unfolding close get_postgres_pool
  close_by_outcome {c} w cached = (
    λ s h. (ground arith, ground (arith, lookup-pop_self (pool_key settings) w.pool_cache)),
    λ x s h. (ground arith, ground arith),
  )
