-- ===== src/Mongo/Driver.antt =====
-- What the MongoDB adapter takes from outside: motor, pymongo, bson and asyncio, as one record of calls
-- on the state `S` of the outside world; `C` are clients, `J` the values in a document and `X`
-- exceptions. An awaited call stands for the call inside its `asyncio.timeout` block; that `insert_one`
-- adds a missing `_id` to the document it is given is left out. Also the settings of
-- packages/openframe-adapters-db-mongo/openframe/adapters/db/mongo/config.py.
use openframe_adapters.Prelude.{ℕ, Bool, Option, List, Text, String}
use openframe_adapters.Effect.{Action}
use openframe_adapters.Dict.{Dict}

-- The exception classes that the sources name; `connection_failure` stands for the two of
-- `_CONNECTION_ERRORS`, and `pymongo_error` for those of `_QUERY_ERRORS`, of which it is the base.
pub data MongoClass : Type 0 where
  asyncio_timeout configuration_exception connection_failure pymongo_error builtin_exception :
      MongoClass

-- `operation_timeout` counts milliseconds.
pub record MongoSettings : Type 0 where
  pub url : Text
  pub database : Text
  pub min_pool_size : ℕ
  pub max_pool_size : ℕ
  pub server_selection_timeout_ms : ℕ
  pub tls : Bool
  pub tls_allow_invalid_certs : Bool
  pub operation_timeout : ℕ
  pub adapter_name : String

-- The keyword arguments of `AsyncIOMotorClient`; the last one is given with TLS only.
pub record ClientArgs : Type 0 where
  pub server_selection_timeout_ms : ℕ
  pub min_pool_size : ℕ
  pub max_pool_size : ℕ
  pub tls : Bool
  pub tls_allow_invalid_certificates : Option Bool

-- A collection of a client: `client[database][name]`
pub record Collection (C : Type 0) : Type 0 where
  pub client : C
  pub database : Text
  pub name : Text

pub record Driver (C J S X : Type 0) : Type 0 where
  pub isinstance : X → MongoClass → Bool
  -- `str(v)`, a text as a value, `bool(v)`, `v is None`, and `ObjectId(text)` unless it raises
  pub str : J → Text
  pub text_value : Text → J
  pub truthy : J → Bool
  pub is_none : J → Bool
  pub object_id : Text → Option J
  pub new_client : Text → ClientArgs → Action S X C
  pub close : C → Action S X (Unit {0})
  -- `client.admin.command("ping")`
  pub ping : C → Action S X (Unit {0})
  -- methods of a collection: by `_id` and with a time limit; `find` with `skip` and `limit`, read by
  -- `to_list`; the identifier that `insert_one` gives back; `$set` with the document after it; and
  -- `deleted_count`
  pub find_one : Collection C → J → ℕ → Action S X (Option (Dict Text J))
  pub find_page : Collection C → ℕ → ℕ → ℕ → Action S X (List (Dict Text J))
  pub count_documents : Collection C → ℕ → Action S X ℕ
  pub insert_one : Collection C → Dict Text J → Action S X J
  pub find_one_and_update : Collection C → J → Dict Text J → ℕ → Action S X (Option (Dict Text J))
  pub delete_one : Collection C → J → Action S X ℕ
