-- ===== src/Milvus/Driver.antt =====
-- What the Milvus adapter takes from outside: pymilvus and asyncio, as one record of calls on the state
-- `S` of the outside world; `C` are clients, `J` the values in a row, identifiers and vectors included,
-- and `X` exceptions. An awaited call stands for the call inside its `asyncio.timeout` block. Also the
-- settings of packages/openframe-adapters-db-milvus/openframe/adapters/db/milvus/config.py.
use openframe_adapters.Prelude.{ℕ, Bool, Option, List, Text, String}
use openframe_adapters.Effect.{Action}
use openframe_adapters.Dict.{Dict}

-- The exception classes that the sources catch.
pub data MilvusClass : Type 0 where
  asyncio_timeout milvus_exception builtin_exception : MilvusClass

pub record MilvusSettings : Type 0 where
  pub uri : Text
  pub token : Text
  pub db_name : Text
  pub metric_type : Text
  pub vector_dim : ℕ
  pub adapter_name : String

-- A hit of a search: a dict, and what it has at the key `entity`.
pub record Hit (J : Type 0) : Type 0 where
  pub fields : Dict Text J
  pub entity : Option (Dict Text J)

pub record Driver (C J S X : Type 0) : Type 0 where
  pub isinstance : X → MilvusClass → Bool
  -- `type(exc).__name__`, and `(getattr(exc, "message", "") or str(exc)).lower()`
  pub class_name : X → Text
  pub lower_message : X → Text
  -- `AsyncMilvusClient(uri=…, token=…, db_name=…)`
  pub new_client : Text → Text → Text → Action S X C
  pub list_collections : C → Action S X (Unit {0})
  -- The client's `close` where it has one, its result awaited where that is a coroutine.
  pub close : C → Option (Action S X (Unit {0}))
  -- methods on a collection; an identifier may be `None`
  pub get : C → Text → List (Option J) → Action S X (List (Dict Text J))
  -- `query` with the empty filter, with a limit and an offset and without
  pub query_page : C → Text → ℕ → ℕ → Action S X (List (Dict Text J))
  pub query_all : C → Text → Action S X (List (Dict Text J))
  pub upsert : C → Text → List (Dict Text J) → Action S X (Unit {0})
  pub delete : C → Text → List (Option J) → Action S X (Unit {0})
  -- one list of hits for each vector
  pub search : C → Text → List J → ℕ → Action S X (List (List (Hit J)))
