-- ===== src/Redis/Driver.antt =====
-- What the Redis adapter takes from outside: redis-py, asyncio and json, as one record of calls on
-- the state `S` of the outside world, with clients of type `C` and exceptions of type `X`. An
-- awaited call stands for the call inside its `asyncio.timeout` block, so its exceptions include
-- the expiry of that budget. Also the settings of
-- packages/openframe-adapters-db-redis/openframe/adapters/db/redis/config.py.
use openframe_adapters.Prelude.{ℕ, Bool, Option, List, Text, String}
use openframe_adapters.Effect.{Outcome, Action}

-- The exception classes that the sources name.
pub data RedisClass : Type 0 where
  asyncio_timeout connection authentication timeout response data_error redis_error : RedisClass
  builtin_exception : RedisClass

-- Floats are counted in milliseconds. A negative TTL is refused by the server and not modelled.
pub record RedisSettings : Type 0 where
  pub redis_url : Text
  pub redis_max_connections : ℕ
  pub redis_socket_timeout : ℕ
  pub redis_socket_connect_timeout : ℕ
  pub redis_key_prefix : Text
  pub redis_default_ttl : ℕ
  pub adapter_name : String
  pub operation_timeout : ℕ
  pub connection_timeout : ℕ

-- A JSON value as the adapter sees it: `None`, a string, or any other value by its `str()`.
pub data Value : Type 0 where
  null : Value
  text : Text → Value
  other : Text → Value

-- `dict[str, Any]`, in order
abbrev pub Fields : Type 0
Fields = List (Text × Value)

pub record Driver (C S X : Type 0) : Type 0 where
  pub isinstance : X → RedisClass → Bool
  -- `ConnectionPool.from_url(...)` and `Redis(connection_pool=pool)`
  pub from_url : RedisSettings → Action S X C
  pub ping : C → Action S X (Unit {0})
  pub get : C → Text → Action S X (Option Text)
  -- `client.set(key, value, nx=True, ex=ttl)` and with `xx=True`; `true` is the reply OK
  pub set_nx : C → Text → Text → Option ℕ → Action S X Bool
  pub set_xx : C → Text → Text → Option ℕ → Action S X Bool
  pub delete : C → Text → Action S X ℕ
  -- every key that `scan_iter(match=pattern, count=100)` yields
  pub scan_iter : C → Text → Action S X (List Text)
  pub mget : C → List Text → Action S X (List (Option Text))
  pub aclose : C → Action S X (Unit {0})
  pub dumps : Fields → Outcome X Text
  pub loads : Text → Outcome X Fields
