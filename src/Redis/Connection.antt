-- ===== src/Redis/Connection.antt =====
-- connection.py of the Redis adapter: the process-wide client cache and `get_redis_client`.
use openframe_adapters.Prelude.{
  true, ℕ, ◌≡◌, ◌↔◌, Bool, ◌&&◌, Option, none, some, Text, eq_text, ◌==◌, arith, if◌then◌else◌,
}
use openframe_adapters.Effect.{ok, raised, Action, ◌>>=◌, ◌>>◌, pure, raise, modify, catch}
use openframe_adapters.Effect.Errors.{
  ErrorClass, Failure, adapter_error, outside, connection_error, timeout_error, configuration_error,
}
use openframe_adapters.Dict.{Dict, Eq, lookup, insert, text_iff}
use openframe_adapters.Redis.Driver.{
  Driver, RedisSettings, asyncio_timeout, connection, authentication, response,
}

-- `_ClientCacheKey`
pub record CacheKey : Type 0 where
  pub url : Text
  pub max_connections : ℕ
  pub socket_timeout : ℕ
  pub socket_connect_timeout : ℕ

abbrev pub cache_key : RedisSettings → CacheKey
cache_key settings = record {
  url = settings.redis_url;
  max_connections = settings.redis_max_connections;
  socket_timeout = settings.redis_socket_timeout;
  socket_connect_timeout = settings.redis_socket_connect_timeout;
}

abbrev pub key_beq : CacheKey → CacheKey → Bool
key_beq a b =
    eq_text a.url b.url
    && a.max_connections == b.max_connections
    && a.socket_timeout == b.socket_timeout
    && a.socket_connect_timeout == b.socket_connect_timeout

pub key_iff : (a b : CacheKey) → (key_beq a b ≡ true) ↔ (a ≡ b)
key_iff a b = ground (arith, text_iff a.url b.url)

instance abbrev pub key_eq : Eq CacheKey
key_eq = record { beq = key_beq; beq_iff = key_iff }

-- The process: the module's `_client_cache`, and the world outside.
pub record World (C S : Type 0) : Type 0 where
  pub client_cache : Dict CacheKey C
  pub server : S

module _ {C S X A : Type 0} where
  -- A call of the driver: its exceptions are outside ones.
  abbrev pub call : Action S X A → Action (World C S) (Failure X) A
  call m w =
      let (r, s) = m w.server in
      elim r [
        | ok a ↦ (ok a, record w { server = s })
        | raised x ↦ (raised (outside x), record w { server = s })
      ]

  -- `except` clauses that see only outside exceptions: `handler` says what is raised instead.
  abbrev pub translate :
      (X → Failure X) → Action (World C S) (Failure X) A → Action (World C S) (Failure X) A
  translate handler m =
      catch m (λ e. elim e [ outside x ↦ raise (handler x) | other ↦ raise other ])

module _ {C S X : Type 0} (d : Driver C S X) where
  abbrev pub connect_failed : RedisSettings → ErrorClass → Option X → Failure X
  connect_failed settings c cause = adapter_error (record {
    error_class = c;
    adapter = settings.adapter_name;
    operation = "connect";
    cause = cause;
  })

  -- The `except` clauses of `get_redis_client`, in order; any other exception passes unchanged.
  unfoldable pub connect_error : RedisSettings → X → Failure X
  connect_error settings exc =
      if d.isinstance exc asyncio_timeout
      then connect_failed settings timeout_error (some exc)
      else if d.isinstance exc authentication
      then connect_failed settings connection_error (some exc)
      else if d.isinstance exc connection
      then connect_failed settings connection_error (some exc)
      else if d.isinstance exc response
      then connect_failed settings configuration_error none
      else outside exc

  -- The body of the `try`: build the client and ping it.
  unfoldable pub open_client : RedisSettings → Action (World C S) (Failure X) C
  open_client settings = do client ← call (d.from_url settings); call (d.ping client); pure client

  unfoldable pub get_redis_client : RedisSettings → Action (World C S) (Failure X) C
  unfolding open_client
  get_redis_client settings w = elim (lookup (cache_key settings) w.client_cache) [
    | some client ↦ (ok client, w)
    | none ↦
        (do
          client ← translate (connect_error settings) (open_client settings)
          modify
              (λ w. record w { client_cache = insert (cache_key settings) client w.client_cache })
          pure client)
          w
  ]
