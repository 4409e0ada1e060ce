-- ===== src/Mysql/Fake.antt =====
-- A database in memory: it is what the witnesses run on, and models no code.
use openframe_adapters.Prelude.{
  ℕ, ◌+◌, refl, Bool, true, false, none, some, [], ◌∷◌, codes, eq_text, if◌then◌else◌,
}
use openframe_adapters.Effect.{ok, raised}
use openframe_adapters.Sql.{RepositoryClass}
use openframe_adapters.Mysql.Driver.{
  Driver, MysqlClass, mysql_error, interface_error, builtin_exception,
}
use openframe_adapters.Mysql.Committing.{Transactional}

-- How many statements ran and how many were committed, and how many rows a statement changes.
pub record Database : Type 0 where
  pub ran : ℕ
  pub committed : ℕ
  pub changes : ℕ

-- The only exception: an `InterfaceError`.
abbrev is_interface : Unit {0} → MysqlClass → Bool
is_interface x interface_error = true
is_interface x mysql_error = true
is_interface x builtin_exception = true
is_interface x _ = false

-- Rows are numbers; the URL `bad` has no port.
unfoldable pub fake : Driver ℕ ℕ ℕ ℕ ℕ Database (Unit {0})
fake = record {
  isinstance = is_interface;
  code_of = λ x. none;
  urlparse = λ url. record {
    hostname = none;
    port = if eq_text url (codes "bad") then raised tt else ok none;
    username = none;
    password = none;
    path = codes "/shop";
  };
  create_pool = λ args s. (ok 7, s);
  acquire = λ pool s. (ok 3, s);
  release = λ pool conn s. (ok tt, s);
  close = λ pool s. (ok tt, s);
  wait_closed = λ pool s. (ok tt, s);
  cursor = λ conn s. (ok 5, s);
  close_cursor = λ cur s. (ok tt, s);
  commit = λ conn s. (ok tt, record s { committed = s.ran });
  execute = λ cur query arguments s. (ok tt, record s { ran = s.ran + 1 });
  fetchone = λ cur s. (ok (some 1), s);
  fetchall = λ cur s. (ok (1 ∷ []), s);
  fetch_count = λ cur s. (ok (some 1), s);
  rowcount = λ cur s. s.changes;
  lastrowid = λ cur s. some 1;
}

-- Entities are rows of a table of one column beside the identifier.
abbrev pub items : RepositoryClass ℕ ℕ (Unit {0}) ℕ
items = record {
  class_table = codes "items";
  class_id_column = codes "id";
  row_to_entity = λ r. ok 0;
  entity_to_row = λ e. ok ((codes "id", e) ∷ (codes "name", e + 1) ∷ []);
}

pub fake-Transactional : Transactional fake (λ s. s.committed)
unfolding fake
fake-Transactional = record {
  create_pool_keeps = λ a s. refl;
  acquire_keeps = λ c s. refl;
  release_keeps = λ c k s. refl;
  release_returns = λ c k s. refl;
  cursor_keeps = λ k s. refl;
  close_cursor_keeps = λ u s. refl;
  execute_keeps = λ u q a s. refl;
  fetchone_keeps = λ u s. refl;
}
