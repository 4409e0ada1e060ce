-- ===== src/Postgres/Fake.antt =====
-- A database in memory: it is what the witnesses run on, and models no code.
use openframe_adapters.Prelude.{
  ℕ, ◌+◌, Bool, true, false, some, [], ◌∷◌, ◌++◌, codes, if◌then◌else◌,
}
use openframe_adapters.Effect.{ok, raised}
use openframe_adapters.Postgres.Driver.{
  Driver, RepositoryClass, PostgresClass, interface_error, builtin_exception,
}
use openframe_adapters.Postgres.Statements.{decimal}
use openframe_adapters.Postgres.Translation.{HooksPass}

-- How many rows a `DELETE` finds, how many connections are out, and whether closing a pool fails.
pub record Database : Type 0 where
  pub matching : ℕ
  pub acquired : ℕ
  pub stubborn : Bool

-- The only exception: an `InterfaceError`.
abbrev pub is_interface : Unit {0} → PostgresClass → Bool
is_interface x interface_error = true
is_interface x builtin_exception = true
is_interface x _ = false

-- Rows are numbers, and `INSERT` and `UPDATE` find one; `SELECT` of rows fails.
unfoldable pub fake : Driver ℕ ℕ Database ℕ ℕ (Unit {0})
fake = record {
  isinstance = is_interface;
  create_pool = λ settings s. (ok 7, s);
  fetchrow = λ pool query arguments s. (ok (some 1), s);
  execute = λ pool query arguments s. (ok (codes "DELETE " ++ decimal s.matching), s);
  select_one = λ pool s. (ok tt, s);
  acquire = λ pool s. (ok 3, record s { acquired = s.acquired + 1 });
  release = λ pool conn s. (ok tt, record s { acquired = 0 });
  fetch = λ conn query arguments s. (raised tt, s);
  fetch_count = λ conn query s. (ok 0, s);
  close = λ pool s. if s.stubborn then (raised tt, s) else (ok tt, s);
}

-- Entities are rows of a table of one column beside the identifier.
abbrev pub items : RepositoryClass ℕ ℕ (Unit {0}) ℕ
items = record {
  class_table = codes "items";
  class_id_column = codes "id";
  row_to_entity = λ r. ok 0;
  entity_to_row = λ e. ok ((codes "id", e) ∷ (codes "name", e + 1) ∷ []);
}

pub items-HooksPass : HooksPass fake items
items-HooksPass = record { from_passes = λ r x h. absurd (cc); to_passes = λ t x h. absurd (cc) }
