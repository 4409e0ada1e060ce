-- ===== src/Falkor/Driver.antt =====
-- What the FalkorDB adapter takes from outside: falkordb, redis-py and asyncio, as one record of calls on
-- the state `S` of the outside world; `C` are clients, `G` graphs, `J` the values of properties and `X`
-- exceptions. An awaited call stands for the call inside its `asyncio.timeout` block. Also the settings of
-- packages/openframe-adapters-db-falkordb/openframe/adapters/db/falkordb/config.py.
use openframe_adapters.Prelude.{ℕ, Bool, Option, List, Text, String}
use openframe_adapters.Effect.{Outcome, Action}
use openframe_adapters.Dict.{Dict}

-- The exception classes that the sources name; `redis_connection` stands for `ConnectionError` and its
-- subclass `AuthenticationError`.
pub data FalkorClass : Type 0 where
  asyncio_timeout redis_connection redis_timeout redis_response builtin_exception : FalkorClass

-- Floats are counted in milliseconds.
pub record FalkordbSettings : Type 0 where
  pub host : Text
  pub port : ℕ
  pub password : Option Text
  pub ssl : Bool
  pub socket_timeout : ℕ
  pub socket_connect_timeout : ℕ
  pub graph_name : Text
  pub node_label : Text
  pub adapter_name : String

-- A cell of a result: a node with its properties, or a value.
pub data Cell (J : Type 0) : Type 0 where
  node : Dict Text J → Cell J
  scalar : J → Cell J

-- A parameter of a query.
pub data Param (J : Type 0) : Type 0 where
  text_param : Text → Param J
  number_param : ℕ → Param J
  properties_param : Dict Text J → Param J

pub record QueryResult (J : Type 0) : Type 0 where
  pub result_set : List (List (Cell J))
  pub nodes_deleted : ℕ

pub record Driver (C G J S X : Type 0) : Type 0 where
  pub isinstance : X → FalkorClass → Bool
  -- `str(exc).lower()`, `str(v)`, `int(cell)`, and the exception of `xs[i]`
  pub lower_message : X → Text
  pub str : J → Text
  pub int_of : Cell J → Outcome X ℕ
  pub index_error : X
  -- `FalkorDB(…)` with the settings but the names, `client.connection.ping()` and `client.aclose()`
  pub new_client : FalkordbSettings → Action S X C
  pub ping : C → Action S X (Unit {0})
  pub aclose : C → Action S X (Unit {0})
  pub select_graph : C → Text → Action S X G
  -- `create_node_unique_constraint(label, property)`
  pub create_constraint : G → Text → Text → Action S X (Unit {0})
  pub query : G → Text → List (Text × Param J) → Action S X (QueryResult J)
