-- ===== src/Redis/Escapes.antt =====
-- What `get_redis_client` does not translate leaves every method of the repository as it came.
use openframe_adapters.Prelude.{ℕ, ◌≡◌, none, arith, false, Text}
use openframe_adapters.Effect.{ok, raised}
use openframe_adapters.Effect.Errors.{outside}
use openframe_adapters.Dict.{lookup}
use openframe_adapters.Redis.Driver.{
  Driver, RedisSettings, asyncio_timeout, connection, authentication, response,
}
use openframe_adapters.Redis.Connection.{
  key_eq, World, cache_key, get_redis_client, open_client, connect_error,
}
use openframe_adapters.Redis.Keys.{Mapping}
use openframe_adapters.Redis.Repository.{get, list, create, update, delete}

-- An exception that none of the four `except` clauses of `get_redis_client` names.
pub record IsUnlisted {C S X : Type 0} (d : Driver C S X) (x : X) : Type 0 where
  pub not_asyncio_timeout : d.isinstance x asyncio_timeout ≡ false
  pub not_authentication : d.isinstance x authentication ≡ false
  pub not_connection : d.isinstance x connection ≡ false
  pub not_response : d.isinstance x response ≡ false

module _ {C S X T : Type 0} (d : Driver C S X) (m : Mapping T X) (settings : RedisSettings) {x : X}
    {c : C} (w : World C S) {s s' : S} (unlisted : IsUnlisted d x)
    (cold : lookup (cache_key settings) w.client_cache ≡ none)
    (opened : d.from_url settings w.server ≡ (ok c, s)) (lost : d.ping c s ≡ (raised x, s')) where
  connect_escapes : get_redis_client d settings w ≡ (raised (outside x), record w { server = s' })
  unfolding get_redis_client open_client connect_error
  connect_escapes = rw (cold, get_redis_client) (ground (arith, unlisted.not_asyncio_timeout))

  -- With no client in the cache, an exception of the first ping that is no timeout of asyncio and
  -- no authentication, connection or response error of redis-py leaves `get`, `list`, `create`,
  -- `update` and `delete` untranslated.
  pub methods_escape :
      (entity_id : Text) (limit offset : ℕ) (entity : T)
      → ((get d m settings entity_id w).0 ≡ raised (outside x))
        × ((list d m settings limit offset w).0 ≡ raised (outside x))
        × ((create d m settings entity w).0 ≡ raised (outside x))
        × ((update d m settings entity w).0 ≡ raised (outside x))
        × ((delete d settings entity_id w).0 ≡ raised (outside x))
  unfolding get list create update delete
  methods_escape entity_id limit offset entity = (
    ground (arith, connect_escapes),
    ground (arith, connect_escapes),
    ground (arith, connect_escapes),
    ground (arith, connect_escapes),
    ground (arith, connect_escapes),
  )
