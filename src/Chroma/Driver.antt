-- ===== src/Chroma/Driver.antt =====
-- What the ChromaDB adapter takes from outside: chromadb, httpx and asyncio, as one record of calls on the
-- state `S` of the outside world; `C` are clients, `N` collections, `J` identifiers, vectors and documents,
-- and `X` exceptions. An awaited call stands for the call inside its `asyncio.timeout` block. Also the
-- settings of packages/openframe-adapters-db-chromadb/openframe/adapters/db/chromadb/config.py.
use openframe_adapters.Prelude.{ℕ, Bool, Option, List, Text, String}
use openframe_adapters.Effect.{Action}
use openframe_adapters.Dict.{Dict}

-- The exception classes that the sources name.
pub data ChromaClass : Type 0 where
  asyncio_timeout httpx_timeout httpx_transport chroma_error value_error builtin_exception :
      ChromaClass

pub record ChromadbSettings : Type 0 where
  pub host : Text
  pub port : ℕ
  pub ssl : Bool
  pub tenant : Text
  pub database : Text
  pub collection : Text
  pub adapter_name : String

-- A result of `collection.get`: a column for each key, `none` where it is missing or `None`.
pub record GetResult (J : Type 0) : Type 0 where
  pub ids : Option (List J)
  pub embeddings : Option (List J)
  pub metadatas : Option (List (Option (Dict Text J)))
  pub documents : Option (List (Option J))

-- A result of `collection.query`: the same for each of the vectors.
pub record QueryResult (J : Type 0) : Type 0 where
  pub ids : Option (List (List J))
  pub embeddings : Option (List (List J))
  pub metadatas : Option (List (List (Option (Dict Text J))))
  pub documents : Option (List (List (Option J)))

-- What `add` and `update` write for one identifier.
pub record Written (J : Type 0) : Type 0 where
  pub embedding : Option J
  pub metadata : Option (Dict Text J)
  pub document : Option J

pub record Driver (C N J S X : Type 0) : Type 0 where
  pub isinstance : X → ChromaClass → Bool
  -- the exceptions of `d[key]` and `xs[i]`
  pub key_error : X
  pub index_error : X
  -- `AsyncHttpClient(host=…, port=…, ssl=…, tenant=…, database=…)`
  pub new_client : Text → ℕ → Bool → Text → Text → Action S X C
  pub get_or_create_collection : C → Text → Action S X N
  -- methods of a collection: `get` by identifiers, with a limit and an offset, and without columns
  pub get : N → List J → Action S X (GetResult J)
  pub get_page : N → ℕ → ℕ → Action S X (GetResult J)
  pub get_ids : N → List J → Action S X (Option (List J))
  pub count : N → Action S X ℕ
  pub add : N → J → Written J → Action S X (Unit {0})
  pub update : N → J → Written J → Action S X (Unit {0})
  pub delete : N → List J → Action S X (Unit {0})
  -- with one vector and a number of results
  pub query : N → J → ℕ → Action S X (QueryResult J)
