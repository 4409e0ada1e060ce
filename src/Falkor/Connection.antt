-- ===== src/Falkor/Connection.antt =====
-- connection.py of the FalkorDB adapter: the process-wide client cache and `get_falkordb_client`. A
-- process is the `_client_cache` of the module, the flag of the repository, and the world outside.
use openframe_adapters.Prelude.{ℕ, Bool, Option, none, some, Text, if◌then◌else◌}
use openframe_adapters.Effect.{Action, ◌>>=◌, ◌>>◌, pure, ok}
use openframe_adapters.Effect.Errors.{Failure, failure_of, outside, connection_error, timeout_error}
use openframe_adapters.Effect.Objects.{call, update, translate}
use openframe_adapters.Dict.{Dict, Eq, text_eq, lookup, insert}
use openframe_adapters.Dict.Keys.{pair_eq, option_eq, nat_eq, bool_eq}
use openframe_adapters.Falkor.Driver.{Driver, FalkordbSettings, asyncio_timeout, redis_connection}

-- `_ClientCacheKey`
abbrev pub ClientKey : Type 0
ClientKey = ((Text × ℕ) × Option Text) × ((Bool × ℕ) × ℕ)

instance abbrev pub client_key_eq : Eq ClientKey
client_key_eq =
    pair_eq (pair_eq (pair_eq text_eq nat_eq) (option_eq text_eq))
      (pair_eq (pair_eq bool_eq nat_eq) nat_eq)

-- `_cache_key`
unfoldable pub client_key : FalkordbSettings → ClientKey
client_key settings = (
  ((settings.host, settings.port), settings.password),
  ((settings.ssl, settings.socket_timeout), settings.socket_connect_timeout),
)

-- `_client_cache`, and `_constraint_ensured` of the repository
pub record Process (C : Type 0) : Type 0 where
  pub client_cache : Dict ClientKey C
  pub constraint_ensured : Bool

abbrev pub World : Type 0 → Type 0 → Type 0
World C S = Process C × S

module _ {C G J S X : Type 0} (d : Driver C G J S X) (settings : FalkordbSettings) where
  -- The `except` clauses of `get_falkordb_client`; the last two raise the same.
  unfoldable pub connect_error : X → Failure X
  connect_error exc =
      if d.isinstance exc asyncio_timeout
      then failure_of settings.adapter_name timeout_error "connect" (some exc)
      else if d.isinstance exc redis_connection
      then failure_of settings.adapter_name connection_error "connect" (some exc)
      else outside exc

  unfoldable pub get_falkordb_client : Action (World C S) (Failure X) C
  unfolding connect_error
  get_falkordb_client w = elim (lookup (client_key settings) w.0.client_cache) [
    | some client ↦ (ok client, w)
    | none ↦
        (do
          client ←
              translate connect_error (do c ← call (d.new_client settings); call (d.ping c); pure c)
          update
              (λ p. record p { client_cache = insert (client_key settings) client p.client_cache })
          pure client)
          w
  ]
