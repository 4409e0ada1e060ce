-- ===== src/Qdrant/Driver.antt =====
-- What the Qdrant adapter takes from outside: qdrant-client and asyncio, as one record of calls on the
-- state `S` of the outside world; `C` are clients, `J` the values in a payload, identifiers and vectors
-- included, and `X` exceptions. An awaited call stands for the call inside its `asyncio.timeout` block.
-- Also the settings of packages/openframe-adapters-db-qdrant/openframe/adapters/db/qdrant/config.py.
use openframe_adapters.Prelude.{ℕ, Bool, Option, List, Text, String}
use openframe_adapters.Effect.{Action}
use openframe_adapters.Dict.{Dict}

-- The exception classes that the sources name.
pub data QdrantClass : Type 0 where
  asyncio_timeout value_error response_handling_exception unexpected_response builtin_exception :
      QdrantClass

pub record QdrantSettings : Type 0 where
  pub url : Text
  pub api_key : Option Text
  pub prefer_grpc : Bool
  pub https : Option Bool
  pub adapter_name : String

-- `PointStruct`, `Record` and `ScoredPoint`, as far as the adapter reads them.
pub record Point (J : Type 0) : Type 0 where
  pub id : J
  pub vector : J
  pub payload : Option (Dict Text J)

pub record Driver (C J S X : Type 0) : Type 0 where
  pub isinstance : X → QdrantClass → Bool
  -- `exc.status_code`
  pub status_code : X → Option ℕ
  -- `AsyncQdrantClient(url=…, api_key=…, prefer_grpc=…, https=…)`
  pub new_client : Text → Option Text → Bool → Option Bool → Action S X C
  pub get_collections : C → Action S X (Unit {0})
  pub close : C → Action S X (Unit {0})
  -- methods on a collection
  pub upsert : C → Text → List (Point J) → Action S X (Unit {0})
  pub retrieve : C → Text → List J → Action S X (List (Point J))
  -- the records of `scroll` with a limit, and `(await client.count(…)).count`
  pub scroll : C → Text → ℕ → Action S X (List (Point J))
  pub count : C → Text → Action S X ℕ
  pub delete : C → Text → List J → Action S X (Unit {0})
  -- `(await client.query_points(…)).points`, for a vector and a limit
  pub query_points : C → Text → J → ℕ → Action S X (List (Point J))
