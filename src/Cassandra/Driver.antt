-- ===== src/Cassandra/Driver.antt =====
-- What the Cassandra adapter takes from outside: cassandra-driver and asyncio, as one record of calls on
-- the state `S` of the outside world; `C` are sessions, `V` column values, `R` rows and `X` exceptions. An
-- awaited call stands for the call with its callbacks (`_response_future_to_asyncio`) inside its timeout.
-- Also the settings of
-- packages/openframe-adapters-db-cassandra/openframe/adapters/db/cassandra/config.py.
use openframe_adapters.Prelude.{ℕ, Bool, Option, List, Text, String}
use openframe_adapters.Effect.{Outcome, Action}
use openframe_adapters.Sql.{Argument}

-- The exception classes that the sources name; `connection_exception` and `coordinator_timeout` stand for
-- those of `_CONNECTION_ERRORS` and `_TIMEOUT_ERRORS`.
pub data CassandraClass : Type 0 where
  asyncio_timeout no_host_available authentication_failed os_error connection_exception :
      CassandraClass
  coordinator_timeout builtin_exception : CassandraClass

pub record CassandraSettings : Type 0 where
  pub contact_points : List Text
  pub port : ℕ
  pub keyspace : Option Text
  pub username : Option Text
  pub password : Option Text
  pub local_dc : Option Text
  pub protocol_version : Option ℕ
  pub core_connections_per_host : ℕ
  pub adapter_name : String

-- What `_build_session` gives the driver: the arguments of `Cluster`, with the user and the password of
-- its `auth_provider`, the number of connections and the keyspace.
pub record SessionArgs : Type 0 where
  pub contact_points : List Text
  pub port : ℕ
  pub auth_provider : Option (Text × Text)
  pub protocol_version : Option ℕ
  pub core_connections_per_host : ℕ
  pub keyspace : Option Text

pub record Driver (C V R S X : Type 0) : Type 0 where
  pub isinstance : X → CassandraClass → Bool
  -- `int(…)` of the first column of a row
  pub first_int : R → Outcome X ℕ
  pub connect : SessionArgs → Action S X C
  -- `session.cluster.shutdown()`
  pub shutdown : C → Action S X (Unit {0})
  -- `session.execute_async(query, params)` and the rows that its callback is given, those of the
  -- first page
  pub execute : C → Text → Option (List (Argument V)) → Action S X (List R)
