-- ===== src/Mysql/Driver.antt =====
-- What the MySQL adapter takes from outside: aiomysql, PyMySQL, urllib and asyncio, as one record of
-- calls on the state `S` of the outside world; `C` are pools, `K` connections, `U` cursors, `V` column
-- values, `R` rows and `X` exceptions. An awaited call stands for the call inside its
-- `asyncio.timeout` block. Also the settings of
-- packages/openframe-adapters-db-mysql/openframe/adapters/db/mysql/config.py.
use openframe_adapters.Prelude.{ℕ, Bool, Option, List, Text, String}
use openframe_adapters.Effect.{Outcome, Action}
use openframe_adapters.Sql.{Argument}

-- The exception classes that the sources name.
pub data MysqlClass : Type 0 where
  asyncio_timeout operational_error interface_error mysql_error os_error builtin_exception :
      MysqlClass

-- Floats are counted in milliseconds.
pub record MysqlSettings : Type 0 where
  pub database_url : Text
  pub pool_size : ℕ
  pub pool_recycle : ℕ
  pub pool_connect_timeout : ℕ
  pub adapter_name : String

-- What `urlparse` reads; `port` raises for a text that is no port.
pub record Url (X : Type 0) : Type 0 where
  pub hostname : Option Text
  pub port : Outcome X (Option ℕ)
  pub username : Option Text
  pub password : Option Text
  pub path : Text

-- The keyword arguments of `aiomysql.create_pool`.
pub record PoolArgs : Type 0 where
  pub host : Text
  pub port : ℕ
  pub user : Text
  pub password : Text
  pub db : Text
  pub minsize : ℕ
  pub maxsize : ℕ
  pub recycle : ℕ
  pub connect_timeout : ℕ

pub record Driver (C K U V R S X : Type 0) : Type 0 where
  pub isinstance : X → MysqlClass → Bool
  -- `exc.args[0] if exc.args else None`
  pub code_of : X → Option ℕ
  pub urlparse : Text → Url X
  pub create_pool : PoolArgs → Action S X C
  -- `pool.acquire()` and its end, `pool.close()` and `pool.wait_closed()`
  pub acquire : C → Action S X K
  pub release : C → K → Action S X (Unit {0})
  pub close : C → Action S X (Unit {0})
  pub wait_closed : C → Action S X (Unit {0})
  -- `conn.cursor(…)` and its end, `conn.commit()`
  pub cursor : K → Action S X U
  pub close_cursor : U → Action S X (Unit {0})
  pub commit : K → Action S X (Unit {0})
  -- methods and attributes of a cursor
  pub execute : U → Text → List (Argument V) → Action S X (Unit {0})
  pub fetchone : U → Action S X (Option R)
  pub fetchall : U → Action S X (List R)
  -- `(await cur.fetchone())["count"]`
  pub fetch_count : U → Action S X (Option ℕ)
  pub rowcount : U → S → ℕ
  pub lastrowid : U → S → Option ℕ
