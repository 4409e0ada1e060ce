-- ===== src/Dynamodb/Connection.antt =====
-- connection.py of the DynamoDB adapter: the process-wide table cache, `get_dynamodb_table` and
-- `close_dynamodb_table`. A process is the `_table_cache` of the module and the world outside; a cached
-- table is kept with its resource.
use openframe_adapters.Prelude.{
  Option, none, some, List, [], ◌∷◌, ◌++◌, Text, codes, ◌||◌, if◌then◌else◌,
}
use openframe_adapters.Effect.{Action, ◌>>=◌, ◌>>◌, pure, ok, gets}
use openframe_adapters.Effect.Errors.{
  Failure, failure_of, outside, connection_error, timeout_error, configuration_error,
}
use openframe_adapters.Effect.Objects.{call, update, translate}
use openframe_adapters.Dict.{Dict, Eq, text_eq, lookup, insert, pop}
use openframe_adapters.Dict.Keys.{pair_eq, option_eq}
use openframe_adapters.Dynamodb.Driver.{
  Driver, DynamodbSettings, asyncio_timeout, configuration_exception, endpoint_connection_error,
  builtin_connection_error, os_error,
}

-- `_TableCacheKey`: where the table is, and with whose credentials it is used.
abbrev pub CacheKey : Type 0
CacheKey = ((Text × Option Text) × Text) × ((Option Text × Option Text) × Option Text)

instance abbrev pub cache_key_eq : Eq CacheKey
cache_key_eq =
    pair_eq (pair_eq (pair_eq text_eq (option_eq text_eq)) text_eq)
      (pair_eq (pair_eq (option_eq text_eq) (option_eq text_eq)) (option_eq text_eq))

-- `_cache_key`
unfoldable pub cache_key : DynamodbSettings → CacheKey
cache_key settings = (
  ((settings.aws_region, settings.endpoint_url), settings.table_name),
  ((settings.aws_access_key_id, settings.aws_secret_access_key), settings.aws_session_token),
)

abbrev pub World : Type 0 → Type 0 → Type 0
World B S = Dict CacheKey B × S

-- A keyword argument that is set where its setting is not `None`.
abbrev pub optional : Text → Option Text → List (Text × Text)
optional name none = []
optional name (some v) = (name, v) ∷ []

unfoldable pub resource_kwargs : DynamodbSettings → List (Text × Text)
resource_kwargs settings =
    (codes "region_name", settings.aws_region)
    ∷ (optional (codes "endpoint_url") settings.endpoint_url
        ++ (optional (codes "aws_access_key_id") settings.aws_access_key_id
            ++ (optional (codes "aws_secret_access_key") settings.aws_secret_access_key
                ++ optional (codes "aws_session_token") settings.aws_session_token)))

module _ {B R L S X : Type 0} (d : Driver B R L S X) (settings : DynamodbSettings) where
  -- The `except` clauses of `get_dynamodb_table`, in order.
  unfoldable pub connect_error : X → Failure X
  connect_error exc =
      if d.isinstance exc asyncio_timeout
      then failure_of settings.adapter_name timeout_error "connect" (some exc)
      else if d.isinstance exc configuration_exception
      then failure_of settings.adapter_name configuration_error "init" (some exc)
      else if d.isinstance exc endpoint_connection_error
          || d.isinstance exc builtin_connection_error
          || d.isinstance exc os_error
      then failure_of settings.adapter_name connection_error "connect" (some exc)
      else outside exc

  unfoldable pub get_dynamodb_table : Action (World B S) (Failure X) B
  unfolding connect_error
  get_dynamodb_table w = elim (lookup (cache_key settings) w.0) [
    | some table ↦ (ok table, w)
    | none ↦
        (do
          table ← translate connect_error (call (d.enter_resource (resource_kwargs settings)))
          update (insert (cache_key settings) table)
          pure table)
          w
  ]

  -- The entry leaves the cache before the resource is left.
  unfoldable pub close_dynamodb_table : Action (World B S) (Failure X) (Unit {0})
  close_dynamodb_table = do
    cached ← gets (λ w. lookup (cache_key settings) w.0)
    update (pop (cache_key settings))
    elim cached [ none ↦ pure tt | some table ↦ call (d.exit_resource table) ]
