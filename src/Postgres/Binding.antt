-- ===== src/Postgres/Binding.antt =====
-- The statement of `update` binds every column to its own value.
use mathlib.Core.Option.{Option}
use openframe_adapters.Prelude.{
  ◌==◌, if◌then◌else◌, codes, ℕ, suc, zero, ◌+◌, ◌≡◌, refl, ap, List, [], ◌∷◌, ◌++◌, map, length,
  get_elem?, Text, some, arith, ◌∙◌,
}
use mathlib.Core.Option
use openframe_adapters.Postgres.Driver.{Argument, value}
use openframe_adapters.Postgres.Statements.{
  assignment, set_parts_from, update_cols, update_arguments, update_query, join, id_argument,
}

module _ {V : Type 0} where
  set_parts_from-get_elem? :
      (n i : ℕ) (cols : List (Text × V))
      → get_elem? (set_parts_from n cols) i
        ≡ Option.map (λ c. assignment c.0 (n + i)) (get_elem? cols i)
  unfolding set_parts_from
  set_parts_from-get_elem? n i [] = refl
  set_parts_from-get_elem? n zero (c ∷ cols) = ap (λ k. some (assignment c.0 k)) (omega arith)
  set_parts_from-get_elem? n (suc i) (c ∷ cols) =
      set_parts_from-get_elem? (suc n) i cols
      ∙ ap (λ k. Option.map (λ c. assignment c.0 k) (get_elem? cols i)) (omega arith)

  -- What the placeholder of number i + 1 stands for: a column's value, and after the columns `last`.
  abbrev pub bound : List (Text × V) → Argument V → ℕ → Option (Argument V)
  bound cols last i =
      if i == length cols then some last else Option.map (λ c. value c.1) (get_elem? cols i)

  values-get_elem? :
      (cols : List (Text × V)) (last : Argument V) (i : ℕ)
      → get_elem? (map (λ c. value c.1) cols ++ (last ∷ [])) i ≡ bound cols last i
  values-get_elem? [] last zero = refl
  values-get_elem? [] last (suc i) = ground arith
  values-get_elem? (c ∷ cols) last zero = ground arith
  values-get_elem? (c ∷ cols) last (suc i) = ground (arith, values-get_elem? cols last i)

  -- The statement of `update` is an `UPDATE` of the table that sets a list of assignments, joined
  -- by commas, where a condition on the identifier's column holds: the i-th assignment is that of
  -- the i-th column, the identifier's left out, to the placeholder of number i + 1, and the
  -- condition compares with the placeholder whose number is one more than there are columns. The
  -- arguments are, in the order of these numbers, the values of the columns and the value of the
  -- identifier's column, and no others.
  pub update_binds :
      (table id_column : Text) (row : List (Text × V))
      → let cols = update_cols id_column row in
        (parts : List Text) × (update_query table id_column cols
          ≡ codes "UPDATE "
            ++ table
            ++ codes " SET "
            ++ join parts
            ++ codes " WHERE "
            ++ assignment id_column (length cols + 1)
            ++ codes " RETURNING *")
        × ((i : ℕ)
            → get_elem? parts i ≡ Option.map (λ c. assignment c.0 (i + 1)) (get_elem? cols i))
        × ((i : ℕ)
            → get_elem? (update_arguments id_column row cols) i
              ≡ bound cols (id_argument id_column row) i)
  unfolding update_query update_arguments
  update_binds table id_column row =
      let cols = update_cols id_column row in
      (
        set_parts_from 1 cols,
        refl,
        λ i.
            set_parts_from-get_elem? 1 i cols
            ∙ ap (λ k. Option.map (λ c. assignment c.0 k) (get_elem? cols i)) (omega arith),
        values-get_elem? cols (id_argument id_column row),
      )
