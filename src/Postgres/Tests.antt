-- ===== src/Postgres/Tests.antt =====
-- The theorems about the PostgreSQL adapter at concrete inputs, on the database in memory.
use openframe_adapters.Prelude.{
  ◌+◌, ◌++◌, String, ◌≡◌, refl, true, none, some, [], ◌∷◌, codes, ℕ, List, Text, get_elem?,
}
use openframe_adapters.Effect.{ok, raised}
use openframe_adapters.Effect.Errors.{
  connection_error, connection_error, failure_of, Failure, outside, ready,
}
use openframe_adapters.Dict.{lookup}
use openframe_adapters.Postgres.Driver.{Driver, PostgresSettings, value}
use openframe_adapters.Postgres.Connection.{World, pool_key, pool_key_eq, get_postgres_pool}
use openframe_adapters.Postgres.Statements.{
  update_query, join, assignment, update_cols, update_arguments, id_argument,
}
use openframe_adapters.Postgres.Repository.{
  statement_error, wrap_asyncpg, row_of, rows_and_count, both_queries, statement_error,
  both_queries, rows_and_count, row_of, list, Repo, get, create, update, delete, close,
}
use mathlib.Core.Option
use openframe_adapters.Postgres.Binding.{update_binds, bound}
use openframe_adapters.Postgres.PoolCache.{close_by_outcome}
use openframe_adapters.Postgres.Translation.{Passes, HooksPass, statements-Translated}
use openframe_adapters.Postgres.Plugin.{Plugin, Session}
use openframe_adapters.Postgres.Fake.{Database, fake, items}

abbrev shop : PostgresSettings
shop = record {
  database_url = codes "postgres://localhost/shop";
  pool_size = 10;
  pool_max_inactive_conn_lifetime = 300000;
  pool_command_timeout = 60000;
  pool_max_queries = 50000;
  adapter_name = "postgres";
}

abbrev repo : Repo ℕ ℕ (Unit {0}) ℕ
repo = record { settings = shop; table = codes "items"; id_column = codes "id"; class_of = items }

abbrev stubborn : Database
stubborn = record { matching = 2; acquired = 0; stubborn = true }

abbrev cold : World ℕ Database
cold = record { pool_cache = []; database = stubborn }

abbrev warm : World ℕ Database
warm = record { pool_cache = (pool_key shop, 7) ∷ []; database = stubborn }

abbrev row : List (Text × ℕ)
row = (codes "a", 1) ∷ (codes "id", 2) ∷ (codes "b", 3) ∷ []

update_binds_example :
    (parts : List Text) × (update_query (codes "t") (codes "id") (update_cols (codes "id") row)
      ≡ codes "UPDATE t SET "
        ++ join parts
        ++ codes " WHERE "
        ++ assignment (codes "id") 3
        ++ codes " RETURNING *")
    × ((i : ℕ)
        → get_elem? parts i
          ≡ Option.map
              (λ (c : Text × ℕ). assignment c.0 (i + 1))
              (get_elem? ((codes "a", 1) ∷ (codes "b", 3) ∷ []) i))
    × ((i : ℕ)
        → get_elem? (update_arguments (codes "id") row (update_cols (codes "id") row)) i
          ≡ bound ((codes "a", 1) ∷ (codes "b", 3) ∷ []) (value 2) i)
unfolding update_cols id_argument lookup
update_binds_example = update_binds (codes "t") (codes "id") row

warm_cached : lookup (pool_key shop) warm.pool_cache ≡ some 7
unfolding lookup
warm_cached = refl

close_by_outcome_example :
    ((s : Database)
      → fake.close 7 stubborn ≡ (ok tt, s)
      → ((close fake shop warm).0 ≡ ok tt)
        × (lookup (pool_key shop) (close fake shop warm).1.pool_cache ≡ none))
    × ((x : Unit {0}) (s : Database)
        → fake.close 7 stubborn ≡ (raised x, s)
        → ((close fake shop warm).0 ≡ raised (outside x))
          × (get_postgres_pool fake shop (close fake shop warm).1
              ≡ (ok 7, (close fake shop warm).1)))
close_by_outcome_example = close_by_outcome fake shop warm warm_cached

-- A database on which every statement fails with an `InterfaceError`.
unfoldable dead : Driver ℕ ℕ Database ℕ ℕ (Unit {0})
unfolding fake
dead = record fake {
  fetchrow = λ pool query arguments s. (raised tt, s);
  execute = λ pool query arguments s. (raised tt, s);
}

dead-HooksPass : HooksPass dead items
dead-HooksPass = record { from_passes = λ r x h. absurd (cc); to_passes = λ t x h. absurd (cc) }

-- Each of the five methods raises there.
abbrev lost : String → Failure (Unit {0})
lost op = failure_of "postgres" connection_error op (some tt)

all_raise :
    ((get dead repo (codes "x") warm).0 ≡ raised (lost "get"))
    × ((list dead repo 10 0 warm).0 ≡ raised (lost "list"))
    × ((create dead repo 5 warm).0 ≡ raised (lost "create"))
    × ((update dead repo 5 warm).0 ≡ raised (lost "update"))
    × ((delete dead repo (codes "x") warm).0 ≡ raised (lost "delete"))
unfolding dead get list create update delete lookup get_postgres_pool row_of rows_and_count
    both_queries statement_error wrap_asyncpg update_cols
all_raise = (refl, refl, refl, refl, refl)

statements-Translated_example :
    Passes dead "get" (get dead repo (codes "x") warm).0
    × Passes dead "list" (list dead repo 10 0 warm).0
    × Passes dead "create" (create dead repo 5 warm).0
    × Passes dead "update" (update dead repo 5 warm).0
    × Passes dead "delete" (delete dead repo (codes "x") warm).0
statements-Translated_example =
    statements-Translated dead repo dead-HooksPass warm warm_cached (codes "x") 10 0 5

-- A connection is out.
abbrev busy : World ℕ Database
busy = record warm { database = record stubborn { acquired = 1 } }

abbrev with_table : Plugin ℕ ℕ (Unit {0}) ℕ
with_table = record {
  settings = shop;
  table = codes "items";
  id_column = [];
  repository_class = items;
}

abbrev manager : Plugin ℕ ℕ (Unit {0}) ℕ
manager = record with_table { table = [] }

abbrev started : Session ℕ Database ℕ ℕ (Unit {0}) ℕ
started = (record { held = some repo; status = ready }, warm)

abbrev managing : Session ℕ Database ℕ ℕ (Unit {0}) ℕ
managing = (record { held = none; status = ready }, warm)
