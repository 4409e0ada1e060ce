-- ===== src/Qdrant/Connection.antt =====
-- connection.py of the Qdrant adapter: the process-wide client cache and `get_qdrant_client`. A process
-- is the `_client_cache` of the module and the world outside.
use openframe_adapters.Prelude.{
  ℕ, Bool, false, Option, none, some, Text, ◌&&◌, leb, ltb, if◌then◌else◌,
}
use openframe_adapters.Effect.{Action, ◌>>=◌, ◌>>◌, pure, ok}
use openframe_adapters.Effect.Errors.{
  Failure, failure_of, outside, connection_error, timeout_error, configuration_error,
}
use openframe_adapters.Effect.Objects.{call, update, translate}
use openframe_adapters.Dict.{Dict, Eq, text_eq, lookup, insert}
use openframe_adapters.Dict.Keys.{pair_eq, option_eq, bool_eq}
use openframe_adapters.Qdrant.Driver.{
  Driver, QdrantSettings, asyncio_timeout, value_error, response_handling_exception,
  unexpected_response,
}

-- `_ClientCacheKey`
abbrev pub ClientKey : Type 0
ClientKey = Text × ((Option Text × Bool) × Option Bool)

instance abbrev pub client_key_eq : Eq ClientKey
client_key_eq = pair_eq text_eq (pair_eq (pair_eq (option_eq text_eq) bool_eq) (option_eq bool_eq))

-- `_cache_key`
unfoldable pub client_key : QdrantSettings → ClientKey
client_key settings = (settings.url, ((settings.api_key, settings.prefer_grpc), settings.https))

abbrev pub World : Type 0 → Type 0 → Type 0
World C S = Dict ClientKey C × S

-- `status is not None and 400 <= status < 500`
abbrev pub is_refusal : Option ℕ → Bool
is_refusal none = false
is_refusal (some status) = leb 400 status && ltb status 500

module _ {C J S X : Type 0} (d : Driver C J S X) (settings : QdrantSettings) where
  -- The `except` clause of the constructor.
  unfoldable pub init_error : X → Failure X
  init_error exc =
      if d.isinstance exc value_error
      then failure_of settings.adapter_name configuration_error "init" (some exc)
      else outside exc

  -- The `except` clauses of the first call, in order.
  unfoldable pub connect_error : X → Failure X
  connect_error exc =
      if d.isinstance exc asyncio_timeout
      then failure_of settings.adapter_name timeout_error "connect" (some exc)
      else if d.isinstance exc response_handling_exception
      then failure_of settings.adapter_name connection_error "connect" (some exc)
      else if d.isinstance exc unexpected_response
      then (if is_refusal (d.status_code exc)
          then failure_of settings.adapter_name configuration_error "connect" (some exc)
          else failure_of settings.adapter_name connection_error "connect" (some exc))
      else outside exc

  unfoldable pub get_qdrant_client : Action (World C S) (Failure X) C
  unfolding init_error connect_error
  get_qdrant_client w = elim (lookup (client_key settings) w.0) [
    | some client ↦ (ok client, w)
    | none ↦
        (do
          client ← translate init_error (
              call (d.new_client settings.url settings.api_key settings.prefer_grpc settings.https))
          translate connect_error (call (d.get_collections client))
          update (insert (client_key settings) client)
          pure client)
          w
  ]
