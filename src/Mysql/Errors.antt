-- ===== src/Mysql/Errors.antt =====
-- `_wrap_pymysql` of repository.py of the MySQL adapter, and the `except` clauses of every statement.
use openframe_adapters.Prelude.{
  ℕ, Bool, false, ◌==◌, ◌||◌, Option, none, some, if◌then◌else◌, String,
}
use openframe_adapters.Effect.Errors.{
  Failure, outside, connection_error, timeout_error, query_error,
}
use openframe_adapters.Mysql.Driver.{
  Driver, MysqlSettings, asyncio_timeout, operational_error, interface_error, mysql_error,
}
use openframe_adapters.Mysql.Connection.{failure}

-- `code in _CONNECTION_ERROR_CODES`
abbrev pub is_connection_code : Option ℕ → Bool
is_connection_code none = false
is_connection_code (some n) = n == 2002 || n == 2003 || n == 2006 || n == 2013

module _ {C K U V R S X : Type 0} (d : Driver C K U V R S X) where
  -- What `_wrap_pymysql` calls a lost connection.
  abbrev pub is_lost : X → Bool
  is_lost exc =
      if d.isinstance exc operational_error
      then is_connection_code (d.code_of exc)
      else d.isinstance exc interface_error

  unfoldable pub wrap_pymysql : MysqlSettings → X → String → Failure X
  wrap_pymysql settings exc op =
      if is_lost exc
      then failure settings connection_error op (some exc)
      else failure settings query_error op (some exc)

  -- The `except` clauses of every statement, in order.
  unfoldable pub statement_error : MysqlSettings → String → X → Failure X
  unfolding wrap_pymysql
  statement_error settings op exc =
      if d.isinstance exc asyncio_timeout
      then failure settings timeout_error op (some exc)
      else if d.isinstance exc mysql_error
      then wrap_pymysql settings exc op
      else outside exc
