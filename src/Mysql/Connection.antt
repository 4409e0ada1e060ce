-- ===== src/Mysql/Connection.antt =====
-- connection.py of the MySQL adapter: the process-wide pool cache and `get_mysql_pool`. A process is the
-- `_pool_cache` of the module and the world outside.
use openframe_adapters.Prelude.{
  true, false, ℕ, ◌≡◌, ◌↔◌, Bool, ◌&&◌, Option, none, some, Text, [], ◌∷◌, codes, eq_text, ◌==◌,
  arith, if◌then◌else◌, String,
}
use openframe_adapters.Effect.{Outcome, ok, raised, Action, ◌>>=◌, ◌>>◌, pure}
use openframe_adapters.Effect.Errors.{
  ErrorClass, Failure, adapter_error, outside, connection_error, timeout_error, configuration_error,
}
use openframe_adapters.Effect.Objects.{call, hook, update, translate}
use openframe_adapters.Dict.{Dict, Eq, lookup, insert, text_iff}
use openframe_adapters.Mysql.Driver.{
  Driver, MysqlSettings, Url, PoolArgs, asyncio_timeout, operational_error, os_error,
}

-- `_PoolCacheKey`
pub record PoolKey : Type 0 where
  pub url : Text
  pub size : ℕ
  pub recycle : ℕ
  pub connect_timeout : ℕ

abbrev pub pool_key : MysqlSettings → PoolKey
pool_key settings = record {
  url = settings.database_url;
  size = settings.pool_size;
  recycle = settings.pool_recycle;
  connect_timeout = settings.pool_connect_timeout;
}

abbrev pub pool_key_beq : PoolKey → PoolKey → Bool
pool_key_beq a b =
    eq_text a.url b.url
    && a.size == b.size
    && a.recycle == b.recycle
    && a.connect_timeout == b.connect_timeout

pub pool_key_iff : (a b : PoolKey) → (pool_key_beq a b ≡ true) ↔ (a ≡ b)
pool_key_iff a b = ground (arith, text_iff a.url b.url)

instance abbrev pub pool_key_eq : Eq PoolKey
pool_key_eq = record { beq = pool_key_beq; beq_iff = pool_key_iff }

abbrev pub World : Type 0 → Type 0 → Type 0
World C S = Dict PoolKey C × S

-- `argument or default`
abbrev pub text_or : Option Text → Text → Text
text_or none t = t
text_or (some []) t = t
text_or (some (c ∷ cs)) t = c ∷ cs

abbrev pub port_or : Option ℕ → ℕ → ℕ
port_or none n = n
port_or (some p) n = if p == 0 then n else p

-- `path.lstrip("/")`
unfoldable pub lstrip_slash : Text → Text
lstrip_slash [] = []
lstrip_slash (c ∷ cs) = let rest = lstrip_slash cs in if c == 47 then rest else c ∷ cs

-- `_parse_dsn`, with the pool's own arguments
unfoldable pub pool_args : {X : Type 0} → MysqlSettings → Url X → Outcome X PoolArgs
pool_args settings parsed = elim parsed.port [
  | raised x ↦ raised x
  | ok port ↦ ok (record {
    host = text_or parsed.hostname (codes "localhost");
    port = port_or port 3306;
    user = text_or parsed.username [];
    password = text_or parsed.password [];
    db = lstrip_slash parsed.path;
    minsize = settings.pool_size;
    maxsize = settings.pool_size;
    recycle = settings.pool_recycle;
    connect_timeout = settings.pool_connect_timeout;
  })
]

-- `code in _CONFIGURATION_ERROR_CODES`
abbrev pub is_configuration_code : Option ℕ → Bool
is_configuration_code none = false
is_configuration_code (some n) = n == 1049

abbrev pub failure : {X : Type 0} → MysqlSettings → ErrorClass → String → Option X → Failure X
failure settings c op cause =
    adapter_error
      (record { error_class = c; adapter = settings.adapter_name; operation = op; cause = cause })

module _ {C K U V R S X : Type 0} (d : Driver C K U V R S X) (settings : MysqlSettings) where
  -- The `except` clauses of `get_mysql_pool`, in order; any other exception passes unchanged.
  unfoldable pub pool_error : X → Failure X
  pool_error exc =
      if d.isinstance exc asyncio_timeout
      then failure settings timeout_error "connect" (some exc)
      else if d.isinstance exc operational_error
      then (if is_configuration_code (d.code_of exc)
          then failure settings configuration_error "init" (some exc)
          else failure settings connection_error "connect" (some exc))
      else if d.isinstance exc os_error
      then failure settings connection_error "connect" (some exc)
      else outside exc

  unfoldable pub get_mysql_pool : Action (World C S) (Failure X) C
  get_mysql_pool w = elim (lookup (pool_key settings) w.0) [
    | some pool ↦ (ok pool, w)
    | none ↦
        (do
          args ← hook (pool_args settings (d.urlparse settings.database_url))
          pool ← translate pool_error (call (d.create_pool args))
          update (insert (pool_key settings) pool)
          pure pool)
          w
  ]
