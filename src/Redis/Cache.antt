-- ===== src/Redis/Cache.antt =====
-- The client cache of the Redis adapter: sharing, isolation, and what a failed connection leaves.
use openframe_adapters.Prelude.{◌≡◌, some, none, arith, false}
use openframe_adapters.Effect.{ok, raised}
use openframe_adapters.Effect.Errors.{Failure}
use openframe_adapters.Dict.{lookup, lookup-insert, lookup-insert_self, lookup-pop_self}
use openframe_adapters.Redis.Driver.{Driver, RedisSettings}
use openframe_adapters.Redis.Connection.{
  key_eq, key_beq, World, CacheKey, cache_key, get_redis_client, open_client,
}
use openframe_adapters.Redis.Repository.{close}

module _ {C S X : Type 0} (d : Driver C S X) (settings : RedisSettings) where
  -- A cached client is returned, and nothing happens.
  pub get_redis_client_hit :
      {c : C} (w : World C S)
      → lookup (cache_key settings) w.client_cache ≡ some c
      → get_redis_client d settings w ≡ (ok c, w)
  unfolding get_redis_client
  get_redis_client_hit w h = rw (h, get_redis_client)

  -- A call that succeeds has its client in the cache.
  pub get_redis_client_ok :
      {c : C} (w : World C S) {w' : World C S}
      → get_redis_client d settings w ≡ (ok c, w')
      → lookup (cache_key settings) w'.client_cache ≡ some c
  unfolding get_redis_client open_client
  get_redis_client_ok {c} w h =
      ground (arith, lookup-insert_self (cache_key settings) c w.client_cache)

  -- After a `get_redis_client` that returns a client, a second call for settings with the same
  -- cache key, on a process with the same cache, returns the same client and touches nothing.
  pub get_redis_client_again :
      (later : RedisSettings) {c : C} (w : World C S) {w' : World C S}
      → get_redis_client d settings w ≡ (ok c, w')
      → cache_key later ≡ cache_key settings
      → get_redis_client d later w' ≡ (ok c, w')
  unfolding get_redis_client
  get_redis_client_again later w {w'} h e = rw (get_redis_client, e, get_redis_client_ok w h)

  -- A call leaves every other key alone, however it ends; one that raises leaves them all alone.
  pub get_redis_client_frame :
      (k : CacheKey) (w : World C S)
      → key_beq (cache_key settings) k ≡ false
      → lookup k (get_redis_client d settings w).1.client_cache ≡ lookup k w.client_cache
  unfolding get_redis_client open_client
  get_redis_client_frame k w ne = grind (arith, lookup-insert)

  pub get_redis_client_raised :
      {e : Failure X} (w : World C S) {w' : World C S}
      → get_redis_client d settings w ≡ (raised e, w')
      → w'.client_cache ≡ w.client_cache
  unfolding get_redis_client open_client
  get_redis_client_raised w h = ground arith

  -- After `close` the cache has no client of its key, also if closing the client raised.
  pub close_forgets :
      (w : World C S) → lookup (cache_key settings) (close d settings w).1.client_cache ≡ none
  unfolding close
  close_forgets w = ground (arith, lookup-pop_self (cache_key settings) w.client_cache)
