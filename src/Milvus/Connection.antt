-- ===== src/Milvus/Connection.antt =====
-- connection.py of the Milvus adapter: the process-wide client cache, `get_milvus_client` and
-- `_looks_like_connection_failure`. A process is the `_client_cache` of the module and the world outside.
use openframe_adapters.Prelude.{
  contains, Bool, false, none, some, List, [], ◌∷◌, Text, codes, ◌||◌, if◌then◌else◌,
}
use openframe_adapters.Effect.{Action, ◌>>=◌, ◌>>◌, pure, ok}
use openframe_adapters.Effect.Errors.{
  Failure, failure_of, outside, connection_error, timeout_error, configuration_error,
}
use openframe_adapters.Effect.Objects.{call, update, translate}
use openframe_adapters.Dict.{Dict, Eq, text_eq, lookup, insert}
use openframe_adapters.Dict.Keys.{pair_eq}
use openframe_adapters.Milvus.Driver.{Driver, MilvusSettings, asyncio_timeout, milvus_exception}

-- `_ClientCacheKey`
abbrev pub ClientKey : Type 0
ClientKey = (Text × Text) × Text

instance abbrev pub client_key_eq : Eq ClientKey
client_key_eq = pair_eq (pair_eq text_eq text_eq) text_eq

-- `_cache_key`
unfoldable pub client_key : MilvusSettings → ClientKey
client_key settings = ((settings.uri, settings.token), settings.db_name)

abbrev pub World : Type 0 → Type 0 → Type 0
World C S = Dict ClientKey C × S

-- `any(phrase in text for phrase in phrases)`
unfoldable pub contains_any : Text → List Text → Bool
contains_any text [] = false
contains_any text (phrase ∷ phrases) = contains text phrase || contains_any text phrases

-- `_CONNECTION_FAILURE_PHRASES`
abbrev pub connection_failure_phrases : List Text
connection_failure_phrases =
    codes "fail connecting"
    ∷ codes "failed to connect"
    ∷ codes "unavailable"
    ∷ codes "deadline exceeded"
    ∷ codes "connection reset"
    ∷ codes "connection refused"
    ∷ []

module _ {C J S X : Type 0} (d : Driver C J S X) where
  unfoldable pub looks_like_connection_failure : X → Bool
  unfolding contains_any
  looks_like_connection_failure exc = contains_any (d.lower_message exc) connection_failure_phrases

  module _ (settings : MilvusSettings) where
    -- The `except` clause of the constructor.
    unfoldable pub init_error : X → Failure X
    init_error exc =
        if d.isinstance exc milvus_exception
        then failure_of settings.adapter_name configuration_error "init" (some exc)
        else outside exc

    -- The `except` clauses of the first call, in order.
    unfoldable pub connect_error : X → Failure X
    connect_error exc =
        if d.isinstance exc asyncio_timeout
        then failure_of settings.adapter_name timeout_error "connect" (some exc)
        else if d.isinstance exc milvus_exception
        then failure_of settings.adapter_name connection_error "connect" (some exc)
        else outside exc

    unfoldable pub get_milvus_client : Action (World C S) (Failure X) C
    unfolding init_error connect_error
    get_milvus_client w = elim (lookup (client_key settings) w.0) [
      | some client ↦ (ok client, w)
      | none ↦
          (do
            client ←
                translate init_error
                  (call (d.new_client settings.uri settings.token settings.db_name))
            translate connect_error (call (d.list_collections client))
            update (insert (client_key settings) client)
            pure client)
            w
    ]
