-- ===== src/Postgres/Connection.antt =====
-- connection.py of the PostgreSQL adapter: the process-wide pool cache and `get_postgres_pool`.
use openframe_adapters.Prelude.{
  true, ℕ, ◌≡◌, ◌↔◌, Bool, ◌&&◌, ◌||◌, Option, none, some, Text, eq_text, ◌==◌, arith,
  if◌then◌else◌, String,
}
use openframe_adapters.Effect.{Outcome, ok, raised, Action, ◌>>=◌, ◌>>◌, pure, raise, modify, catch}
use openframe_adapters.Effect.Errors.{
  ErrorClass, Failure, adapter_error, outside, connection_error, timeout_error, configuration_error,
}
use openframe_adapters.Dict.{Dict, Eq, lookup, insert, text_iff}
use openframe_adapters.Postgres.Driver.{
  Driver, PostgresSettings, asyncio_timeout, invalid_catalog_name, invalid_password,
  cannot_connect_now, too_many_connections, os_error,
}

-- `_PoolCacheKey`
pub record PoolKey : Type 0 where
  pub url : Text
  pub size : ℕ
  pub lifetime : ℕ
  pub command_timeout : ℕ
  pub max_queries : ℕ

abbrev pub pool_key : PostgresSettings → PoolKey
pool_key settings = record {
  url = settings.database_url;
  size = settings.pool_size;
  lifetime = settings.pool_max_inactive_conn_lifetime;
  command_timeout = settings.pool_command_timeout;
  max_queries = settings.pool_max_queries;
}

abbrev pub pool_key_beq : PoolKey → PoolKey → Bool
pool_key_beq a b =
    eq_text a.url b.url
    && a.size == b.size
    && a.lifetime == b.lifetime
    && a.command_timeout == b.command_timeout
    && a.max_queries == b.max_queries

pub pool_key_iff : (a b : PoolKey) → (pool_key_beq a b ≡ true) ↔ (a ≡ b)
pool_key_iff a b = ground (arith, text_iff a.url b.url)

instance abbrev pub pool_key_eq : Eq PoolKey
pool_key_eq = record { beq = pool_key_beq; beq_iff = pool_key_iff }

-- The module's `_pool_cache`, and the world outside.
pub record World (C S : Type 0) : Type 0 where
  pub pool_cache : Dict PoolKey C
  pub database : S

module _ {C S X A : Type 0} where
  -- A call of the driver: its exceptions are outside ones.
  abbrev pub call : Action S X A → Action (World C S) (Failure X) A
  call m w =
      let (r, s) = m w.database in
      elim r [
        | ok a ↦ (ok a, record w { database = s })
        | raised x ↦ (raised (outside x), record w { database = s })
      ]

  -- A hook of the repository's class: its exceptions are not translated.
  abbrev pub hook : Outcome X A → Action (World C S) (Failure X) A
  hook o w = elim o [ ok a ↦ (ok a, w) | raised x ↦ (raised (outside x), w) ]

  -- `except` clauses that see only outside exceptions: `handler` says what is raised instead.
  abbrev pub translate :
      (X → Failure X) → Action (World C S) (Failure X) A → Action (World C S) (Failure X) A
  translate handler m =
      catch m (λ e. elim e [ outside x ↦ raise (handler x) | other ↦ raise other ])

module _ {C K S V R X : Type 0} (d : Driver C K S V R X) (settings : PostgresSettings) where
  abbrev pub failure : ErrorClass → String → Option X → Failure X
  failure c op cause =
      adapter_error
        (record { error_class = c; adapter = settings.adapter_name; operation = op; cause = cause })

  -- The `except` clauses of `get_postgres_pool`, in order; any other exception passes unchanged.
  unfoldable pub pool_error : X → Failure X
  pool_error exc =
      if d.isinstance exc asyncio_timeout
      then failure timeout_error "connect" (some exc)
      else if d.isinstance exc invalid_catalog_name
      then failure configuration_error "init" (some exc)
      else if d.isinstance exc invalid_password
          || d.isinstance exc cannot_connect_now
          || d.isinstance exc too_many_connections
          || d.isinstance exc os_error
      then failure connection_error "connect" (some exc)
      else outside exc

  unfoldable pub get_postgres_pool : Action (World C S) (Failure X) C
  get_postgres_pool w = elim (lookup (pool_key settings) w.pool_cache) [
    | some pool ↦ (ok pool, w)
    | none ↦
        (do
          pool ← translate pool_error (call (d.create_pool settings))
          modify (λ w. record w { pool_cache = insert (pool_key settings) pool w.pool_cache })
          pure pool)
          w
  ]
