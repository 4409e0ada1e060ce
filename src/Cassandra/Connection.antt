-- ===== src/Cassandra/Connection.antt =====
-- connection.py of the Cassandra adapter: the process-wide session cache, `_build_session` and
-- `get_cassandra_session`. A process is the `_session_cache` of the module and the world outside.
use openframe_adapters.Prelude.{ℕ, Option, none, some, List, [], ◌∷◌, Text, if◌then◌else◌}
use openframe_adapters.Effect.{Action, ◌>>=◌, ◌>>◌, pure, raise, ok}
use openframe_adapters.Effect.Errors.{
  Failure, failure_of, outside, connection_error, timeout_error, configuration_error,
}
use openframe_adapters.Effect.Objects.{call, update, translate}
use openframe_adapters.Dict.{Dict, Eq, text_eq, lookup, insert}
use openframe_adapters.Dict.Keys.{pair_eq, option_eq, list_eq, nat_eq}
use openframe_adapters.Cassandra.Driver.{
  Driver, CassandraSettings, SessionArgs, asyncio_timeout, no_host_available, authentication_failed,
  os_error,
}

-- `_SessionCacheKey`
abbrev pub SessionKey : Type 0
SessionKey = ((List Text × ℕ) × (Option Text × Option Text)) × ((Option Text × Option ℕ) × ℕ)

instance abbrev pub session_key_eq : Eq SessionKey
session_key_eq =
    pair_eq
      (pair_eq (pair_eq (list_eq text_eq) nat_eq) (pair_eq (option_eq text_eq) (option_eq text_eq)))
      (pair_eq (pair_eq (option_eq text_eq) (option_eq nat_eq)) nat_eq)

-- `_cache_key`
unfoldable pub session_key : CassandraSettings → SessionKey
session_key settings = (
  ((settings.contact_points, settings.port), (settings.keyspace, settings.username)),
  ((settings.local_dc, settings.protocol_version), settings.core_connections_per_host),
)

abbrev pub World : Type 0 → Type 0 → Type 0
World C S = Dict SessionKey C × S

-- `password or ""`
abbrev pub password_or_empty : Option Text → Text
password_or_empty none = []
password_or_empty (some p) = p

abbrev pub auth_of : Option Text → Option Text → Option (Text × Text)
auth_of none password = none
auth_of (some user) password = some (user, password_or_empty password)

-- The arguments that `_build_session` connects with.
unfoldable pub session_args : CassandraSettings → SessionArgs
session_args settings = record {
  contact_points = settings.contact_points;
  port = settings.port;
  auth_provider = auth_of settings.username settings.password;
  protocol_version = settings.protocol_version;
  core_connections_per_host = settings.core_connections_per_host;
  keyspace = settings.keyspace;
}

module _ {C V R S X : Type 0} (d : Driver C V R S X) (settings : CassandraSettings) where
  -- The `except` clauses of `get_cassandra_session`, in order.
  unfoldable pub connect_error : X → Failure X
  connect_error exc =
      if d.isinstance exc asyncio_timeout
      then failure_of settings.adapter_name timeout_error "connect" (some exc)
      else if d.isinstance exc no_host_available
      then failure_of settings.adapter_name connection_error "connect" (some exc)
      else if d.isinstance exc authentication_failed
      then failure_of settings.adapter_name connection_error "connect" (some exc)
      else if d.isinstance exc os_error
      then failure_of settings.adapter_name connection_error "connect" (some exc)
      else outside exc

  -- Connect, and keep the session.
  unfoldable pub open_session : Action (World C S) (Failure X) C
  unfolding connect_error
  open_session = do
    session ← translate connect_error (call (d.connect (session_args settings)))
    update (insert (session_key settings) session)
    pure session

  unfoldable pub get_cassandra_session : Action (World C S) (Failure X) C
  unfolding open_session
  get_cassandra_session w = elim (lookup (session_key settings) w.0) [
    | some session ↦ (ok session, w)
    | none ↦ elim settings.contact_points [
      | [] ↦ raise (failure_of settings.adapter_name configuration_error "init" none) w
      | p ∷ ps ↦ open_session w
    ]
  ]
