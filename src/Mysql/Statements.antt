-- ===== src/Mysql/Statements.antt =====
-- repository.py of the MySQL adapter: the texts of the statements and their arguments.
use openframe_adapters.Prelude.{ℕ, Option, none, some, List, [], ◌∷◌, ◌++◌, map, Text, codes}
use openframe_adapters.Dict.{text_eq, lookup}
use openframe_adapters.Sql.{Argument, value, number, null, join, id_argument}

-- `SELECT * … WHERE … LIMIT 1`, which `get` runs and `create` and `update` read the row back with.
unfoldable pub select_query : Text → Text → Text
select_query table id_column =
    codes "SELECT * FROM " ++ table ++ codes " WHERE " ++ id_column ++ codes " = %s LIMIT 1"

unfoldable pub rows_query : Text → Text → Text
rows_query table id_column =
    codes "SELECT * FROM "
    ++ table
    ++ codes " ORDER BY "
    ++ id_column
    ++ codes " LIMIT %s OFFSET %s"

unfoldable pub count_query : Text → Text
count_query table = codes "SELECT COUNT(*) AS count FROM " ++ table

unfoldable pub delete_query : Text → Text → Text
delete_query table id_column =
    codes "DELETE FROM " ++ table ++ codes " WHERE " ++ id_column ++ codes " = %s"

module _ {V : Type 0} where
  unfoldable pub insert_query : Text → List (Text × V) → Text
  unfolding join
  insert_query table row =
      codes "INSERT INTO "
      ++ table
      ++ codes " ("
      ++ join (map (λ c. c.0) row)
      ++ codes ") VALUES ("
      ++ join (map (λ c. codes "%s") row)
      ++ codes ")"

  unfoldable pub insert_arguments : List (Text × V) → List (Argument V)
  insert_arguments row = map (λ c. value c.1) row

  unfoldable pub update_query : Text → Text → List (Text × V) → Text
  unfolding join
  update_query table id_column cols =
      codes "UPDATE "
      ++ table
      ++ codes " SET "
      ++ join (map (λ c. c.0 ++ codes " = %s") cols)
      ++ codes " WHERE "
      ++ id_column
      ++ codes " = %s"

  unfoldable pub update_arguments : Text → List (Text × V) → List (Text × V) → List (Argument V)
  unfolding id_argument
  update_arguments id_column row cols =
      map (λ c. value c.1) cols ++ (id_argument id_column row ∷ [])

  -- `row_dict.get(id_column, cur.lastrowid)`
  unfoldable pub stored_id : Text → List (Text × V) → Option ℕ → Argument V
  stored_id id_column row last = elim (lookup id_column row) [
    | some v ↦ value v
    | none ↦ elim last [ none ↦ null | some n ↦ number n ]
  ]
