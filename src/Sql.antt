-- ===== src/Sql.antt =====
-- What the repositories over SQL databases share: the arguments of a statement, the class of a
-- repository, and the Python that puts the columns of a statement together.
pub mod Plugin
pub mod PluginLife
use openframe_adapters.Prelude.{
  ℕ, Option, none, some, List, [], ◌∷◌, ◌++◌, Text, codes, eq_text, if◌then◌else◌,
}
use openframe_adapters.Effect.{Outcome}
use openframe_adapters.Dict.{text_eq, lookup}

-- An argument of a statement: an identifier, a number, the value of a column, or `None`.
pub data Argument (V : Type 0) : Type 0 where
  identifier : Text → Argument V
  number : ℕ → Argument V
  value : V → Argument V
  null : Argument V

-- The class of a repository: its `_table` and `_id_column`, and the hooks `_row_to_entity`, which
-- `create` may call with `None`, and `_entity_to_row`.
pub record RepositoryClass (V R X T : Type 0) : Type 0 where
  pub class_table : Text
  pub class_id_column : Text
  pub row_to_entity : Option R → Outcome X T
  pub entity_to_row : T → Outcome X (List (Text × V))

-- `argument or class_attribute`, where `None` and the empty text are alike
abbrev pub or_default : Text → Text → Text
or_default [] fallback = fallback
or_default (c ∷ cs) fallback = c ∷ cs

-- `", ".join(parts)`
unfoldable pub join : List Text → Text
join [] = []
join (p ∷ []) = p
join (p ∷ q ∷ ps) = p ++ (codes ", " ++ join (q ∷ ps))

module _ {V : Type 0} where
  -- `{k: v for k, v in row_dict.items() if k != id_column}`
  unfoldable pub update_cols : Text → List (Text × V) → List (Text × V)
  update_cols id_column [] = []
  update_cols id_column (c ∷ cs) =
      let rest = update_cols id_column cs in if eq_text id_column c.0 then rest else c ∷ rest

  -- `row_dict.get(id_column)`
  unfoldable pub id_argument : Text → List (Text × V) → Argument V
  id_argument id_column row = elim (lookup id_column row) [ none ↦ null | some v ↦ value v ]
