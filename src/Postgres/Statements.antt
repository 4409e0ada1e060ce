-- ===== src/Postgres/Statements.antt =====
-- repository.py of the PostgreSQL adapter: the texts of the statements and their arguments.
use openframe_adapters.Prelude.{
  ℕ, suc, zero, ◌+◌, ltb, List, [], ◌∷◌, ◌++◌, map, length, Text, codes, if◌then◌else◌,
}
use Prim.Native.Nat.{◌/◌, ◌%◌}
use openframe_adapters.Dict.{text_eq}
use openframe_adapters.Postgres.Driver.{Argument, value}
unfoldable pub use openframe_adapters.Sql.{join, update_cols, id_argument}

-- The decimal digits of a number; the fuel bounds how many there are.
unfoldable pub decimal_from : ℕ → ℕ → Text
decimal_from zero n = []
decimal_from (suc fuel) n =
    let rest = decimal_from fuel (n / 10) in
    if ltb n 10 then (48 + n) ∷ [] else rest ++ ((48 + n % 10) ∷ [])

-- `str(n)`; a number has fewer digits than its successor says.
unfoldable pub decimal : ℕ → Text
unfolding decimal_from
decimal n = decimal_from (suc n) n

-- `f"${n}"`
abbrev pub placeholder : ℕ → Text
placeholder n = codes "$" ++ decimal n

-- `f"{col} = ${n}"`
abbrev pub assignment : Text → ℕ → Text
assignment col n = col ++ (codes " = " ++ placeholder n)

unfoldable pub get_query : Text → Text → Text
get_query table id_column =
    codes "SELECT * FROM " ++ table ++ codes " WHERE " ++ id_column ++ codes " = $1 LIMIT 1"

unfoldable pub rows_query : Text → Text → Text
rows_query table id_column =
    codes "SELECT * FROM "
    ++ table
    ++ codes " ORDER BY "
    ++ id_column
    ++ codes " LIMIT $1 OFFSET $2"

unfoldable pub count_query : Text → Text
count_query table = codes "SELECT COUNT(*) FROM " ++ table

unfoldable pub delete_query : Text → Text → Text
delete_query table id_column =
    codes "DELETE FROM " ++ table ++ codes " WHERE " ++ id_column ++ codes " = $1"

module _ {V : Type 0} where
  -- The placeholders of the columns, the first being number `n`.
  unfoldable pub placeholders_from : ℕ → List (Text × V) → List Text
  placeholders_from n [] = []
  placeholders_from n (c ∷ cs) = placeholder n ∷ placeholders_from (suc n) cs

  unfoldable pub create_query : Text → List (Text × V) → Text
  unfolding placeholders_from join
  create_query table row =
      codes "INSERT INTO "
      ++ table
      ++ codes " ("
      ++ join (map (λ c. c.0) row)
      ++ codes ") VALUES ("
      ++ join (placeholders_from 1 row)
      ++ codes ") RETURNING *"

  unfoldable pub create_arguments : List (Text × V) → List (Argument V)
  create_arguments row = map (λ c. value c.1) row

  -- The assignments of the columns, the first with placeholder number `n`.
  unfoldable pub set_parts_from : ℕ → List (Text × V) → List Text
  set_parts_from n [] = []
  set_parts_from n (c ∷ cs) = assignment c.0 n ∷ set_parts_from (suc n) cs

  unfoldable pub update_query : Text → Text → List (Text × V) → Text
  unfolding set_parts_from join
  update_query table id_column cols =
      codes "UPDATE "
      ++ table
      ++ codes " SET "
      ++ join (set_parts_from 1 cols)
      ++ codes " WHERE "
      ++ assignment id_column (length cols + 1)
      ++ codes " RETURNING *"

  unfoldable pub update_arguments : Text → List (Text × V) → List (Text × V) → List (Argument V)
  unfolding id_argument
  update_arguments id_column row cols =
      map (λ c. value c.1) cols ++ (id_argument id_column row ∷ [])
