-- ===== src/Mongo/Connection.antt =====
-- connection.py of the MongoDB adapter: the process-wide client cache and `get_mongo_client`. A process
-- is the `_client_cache` of the module with the attributes of the entities that are objects, and the
-- world outside.
use openframe_adapters.Prelude.{ℕ, Bool, none, some, Text, if◌then◌else◌}
use openframe_adapters.Effect.{Action, ◌>>=◌, ◌>>◌, pure, ok}
use openframe_adapters.Effect.Errors.{Failure, failure_of, outside, configuration_error}
use openframe_adapters.Effect.Objects.{call, update, translate}
use openframe_adapters.Dict.{Dict, Eq, text_eq, lookup, insert}
use openframe_adapters.Dict.Keys.{pair_eq, nat_eq, bool_eq}
use openframe_adapters.Mongo.Driver.{Driver, MongoSettings, ClientArgs, configuration_exception}

-- `_ClientCacheKey`
abbrev pub ClientKey : Type 0
ClientKey = (Text × ℕ) × ((ℕ × ℕ) × (Bool × Bool))

instance abbrev pub client_key_eq : Eq ClientKey
client_key_eq =
    pair_eq (pair_eq text_eq nat_eq) (pair_eq (pair_eq nat_eq nat_eq) (pair_eq bool_eq bool_eq))

-- `_cache_key`
unfoldable pub client_key : MongoSettings → ClientKey
client_key settings = (
  (settings.url, settings.min_pool_size),
  (
    (settings.max_pool_size, settings.server_selection_timeout_ms),
    (settings.tls, settings.tls_allow_invalid_certs),
  ),
)

-- The cache, and the attributes of the objects that entities are, by their addresses.
pub record Process (C J : Type 0) : Type 0 where
  pub client_cache : Dict ClientKey C
  pub objects : Dict ℕ (Dict Text J)

abbrev pub World : Type 0 → Type 0 → Type 0 → Type 0
World C J S = Process C J × S

unfoldable pub client_args : MongoSettings → ClientArgs
client_args settings = record {
  server_selection_timeout_ms = settings.server_selection_timeout_ms;
  min_pool_size = settings.min_pool_size;
  max_pool_size = settings.max_pool_size;
  tls = settings.tls;
  tls_allow_invalid_certificates =
      if settings.tls then some settings.tls_allow_invalid_certs else none;
}

module _ {C J S X : Type 0} (d : Driver C J S X) (settings : MongoSettings) where
  -- The `except` clause of the constructor.
  unfoldable pub init_error : X → Failure X
  init_error exc =
      if d.isinstance exc configuration_exception
      then failure_of settings.adapter_name configuration_error "init" (some exc)
      else outside exc

  unfoldable pub get_mongo_client : Action (World C J S) (Failure X) C
  unfolding init_error client_args
  get_mongo_client w = elim (lookup (client_key settings) w.0.client_cache) [
    | some client ↦ (ok client, w)
    | none ↦
        (do
          client ← translate init_error (call (d.new_client settings.url (client_args settings)))
          update
              (λ p. record p { client_cache = insert (client_key settings) client p.client_cache })
          pure client)
          w
  ]
