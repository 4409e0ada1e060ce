-- ===== src/Chroma/Connection.antt =====
-- connection.py of the ChromaDB adapter: the process-wide client cache and `get_chromadb_client`. A
-- process is the `_client_cache` of the module, the collection that the repository keeps, and the world
-- outside.
use openframe_adapters.Prelude.{ℕ, Bool, Option, none, some, Text, if◌then◌else◌}
use openframe_adapters.Effect.{Action, ◌>>=◌, ◌>>◌, pure, ok}
use openframe_adapters.Effect.Errors.{Failure, failure_of, outside, connection_error, timeout_error}
use openframe_adapters.Effect.Objects.{call, update, translate}
use openframe_adapters.Dict.{Dict, Eq, text_eq, lookup, insert}
use openframe_adapters.Dict.Keys.{pair_eq, nat_eq, bool_eq}
use openframe_adapters.Chroma.Driver.{
  Driver, ChromadbSettings, asyncio_timeout, httpx_timeout, httpx_transport,
}

-- `_ClientCacheKey`
abbrev pub ClientKey : Type 0
ClientKey = ((Text × ℕ) × Bool) × (Text × Text)

instance abbrev pub client_key_eq : Eq ClientKey
client_key_eq = pair_eq (pair_eq (pair_eq text_eq nat_eq) bool_eq) (pair_eq text_eq text_eq)

-- `_cache_key`
unfoldable pub client_key : ChromadbSettings → ClientKey
client_key settings =
    (((settings.host, settings.port), settings.ssl), (settings.tenant, settings.database))

-- `_client_cache`, and `_collection_cache` of the repository
pub record Process (C N : Type 0) : Type 0 where
  pub client_cache : Dict ClientKey C
  pub collection_cache : Option N

abbrev pub World : Type 0 → Type 0 → Type 0 → Type 0
World C N S = Process C N × S

module _ {C N J S X : Type 0} (d : Driver C N J S X) (settings : ChromadbSettings) where
  -- The `except` clauses of `get_chromadb_client`, in order.
  unfoldable pub connect_error : X → Failure X
  connect_error exc =
      if d.isinstance exc asyncio_timeout
      then failure_of settings.adapter_name timeout_error "connect" (some exc)
      else if d.isinstance exc httpx_timeout
      then failure_of settings.adapter_name timeout_error "connect" (some exc)
      else if d.isinstance exc httpx_transport
      then failure_of settings.adapter_name connection_error "connect" (some exc)
      else outside exc

  unfoldable pub get_chromadb_client : Action (World C N S) (Failure X) C
  unfolding connect_error
  get_chromadb_client w = elim (lookup (client_key settings) w.0.client_cache) [
    | some client ↦ (ok client, w)
    | none ↦
        (do
          client ← translate connect_error (
              call (
                d.new_client settings.host settings.port settings.ssl settings.tenant
                  settings.database))
          update
              (λ p. record p { client_cache = insert (client_key settings) client p.client_cache })
          pure client)
          w
  ]
