-- ===== src/Mysql/Durable.antt =====
-- `create`, `update` and `delete` commit what they return, and nothing of what they refuse.
use openframe_adapters.Prelude.{
  ◌≡◌, refl, inl, inr, Option, none, some, List, [], ◌∷◌, Text, Bool, arith, ◌==◌,
}
use openframe_adapters.Effect.{Action, ◌>>=◌, pure, raise, Outcome-cases}
use openframe_adapters.Effect.Errors.{Failure, query_error}
use openframe_adapters.Effect.Objects.{translate}
use openframe_adapters.Sql.{update_cols}
use openframe_adapters.Mysql.Driver.{Driver}
use openframe_adapters.Mysql.Connection.{World, failure, get_mysql_pool}
use openframe_adapters.Mysql.Errors.{statement_error}
use openframe_adapters.Mysql.Cursors.{writing}
use openframe_adapters.Mysql.Repository.{
  Repo, entity_of, row_of, found, insert_statements, update_statements, delete_statement, create,
  update, delete,
}
use openframe_adapters.Mysql.Committing.{Transactional}
use openframe_adapters.Mysql.Writes.{
  Written, Pure, after_read, then_hook, pool-Keeps, row_of-Keeps, insert-Keeps, update-Keeps,
  delete-Keeps, statement-Written,
}

module _ {C K U V R S X D T : Type 0} (d : Driver C K U V R S X) {committed : S → D}
    (t : Transactional d committed) (self : Repo V R X T) where
  entity_of-Pure : Pure d committed (entity_of d self)
  unfolding entity_of
  entity_of-Pure r u = elim (Outcome-cases (self.class_of.row_to_entity r)) [
    | inl (b, e) ↦ inl (b, ground (arith, e))
    | inr (x, e) ↦ inr (x, ground (arith, e))
  ]

  found-Pure : Pure d committed (found d self)
  unfolding entity_of
  found-Pure none u = inl (none, refl)
  found-Pure (some r) u = elim (Outcome-cases (self.class_of.row_to_entity (some r))) [
    | inl (b, e) ↦ inl (some b, ground (arith, e))
    | inr (x, e) ↦ inr (x, ground (arith, e))
  ]

  -- The methods after the statements are known.
  abbrev deletion : Text → C → Action (World C S) (Failure X) Bool
  deletion i pool =
      translate (statement_error d self.settings "delete")
        (writing d pool (delete_statement d self i))
      >>= λ deleted. pure (deleted == 1)

  abbrev insertion : List (Text × V) → C → Action (World C S) (Failure X) T
  insertion row pool =
      translate (statement_error d self.settings "create")
        (writing d pool (insert_statements d self row))
      >>= entity_of d self

  abbrev change : List (Text × V) → List (Text × V) → C → Action (World C S) (Failure X) (Option T)
  change row cols pool = elim cols [
    | [] ↦ raise (failure self.settings query_error "update" none)
    | c ∷ cs ↦
        translate (statement_error d self.settings "update")
          (writing d pool (update_statements d self row (c ∷ cs)))
        >>= found d self
  ]

  change-Written :
      (row cols : List (Text × V)) (pool : C) (u : World C S) (s : S)
      → committed u.1 ≡ committed s
      → Written d committed (change row cols pool u).0 s (change row cols pool u).1.1
  change-Written row [] pool u s same = inl same
  change-Written row (c ∷ cs) pool u s same =
      then_hook d committed
        (translate (statement_error d self.settings "update")
          (writing d pool (update_statements d self row (c ∷ cs))))
        (found d self) u s found-Pure
        (statement-Written d committed t self "update" pool (update_statements d self row (c ∷ cs))
          u (update-Keeps d committed t self row (c ∷ cs)) same)

  delete-Written :
      (i : Text) (w : World C S)
      → Written d committed (delete d self i w).0 w.1 (delete d self i w).1.1
  unfolding delete
  delete-Written i w =
      after_read d committed (get_mysql_pool d self.settings) (deletion i) w w.1
        (pool-Keeps d committed t self.settings) refl
        (λ pool u same.
          then_hook d committed
            (translate (statement_error d self.settings "delete")
              (writing d pool (delete_statement d self i)))
            (λ deleted. pure (deleted == 1)) u w.1 (λ a v. inl (a == 1, refl))
            (statement-Written d committed t self "delete" pool (delete_statement d self i) u
              (delete-Keeps d committed t self i) same))

  create-Written :
      (entity : T) (w : World C S)
      → Written d committed (create d self entity w).0 w.1 (create d self entity w).1.1
  unfolding create
  create-Written entity w =
      after_read d committed (get_mysql_pool d self.settings)
        (λ pool. row_of d self entity >>= λ row. insertion row pool) w w.1
        (pool-Keeps d committed t self.settings) refl
        (λ pool u same.
          after_read d committed (row_of d self entity) (λ row. insertion row pool) u w.1
            (row_of-Keeps d committed t self entity) same
            (λ row v same'.
              then_hook d committed
                (translate (statement_error d self.settings "create")
                  (writing d pool (insert_statements d self row)))
                (entity_of d self) v w.1 entity_of-Pure
                (statement-Written d committed t self "create" pool (insert_statements d self row) v
                  (insert-Keeps d committed t self row) same')))

  update-Written :
      (entity : T) (w : World C S)
      → Written d committed (update d self entity w).0 w.1 (update d self entity w).1.1
  unfolding update
  update-Written entity w =
      after_read d committed (get_mysql_pool d self.settings)
        (λ pool. row_of d self entity >>= λ row. change row (update_cols self.id_column row) pool) w
        w.1 (pool-Keeps d committed t self.settings) refl
        (λ pool u same.
          after_read d committed (row_of d self entity)
            (λ row. change row (update_cols self.id_column row) pool) u w.1
            (row_of-Keeps d committed t self entity) same
            (λ row v same'. change-Written row (update_cols self.id_column row) pool v w.1 same'))

  -- Where only `commit` changes what is committed in MySQL and giving back a connection does not
  -- raise: what `create`, `update` and `delete` leave committed is, where they return, what a
  -- commit that returned made of the data committed before; where they raise an error of
  -- openframe-core, the data committed before, or what a commit that raised made of it.
  pub writes_are_committed :
      (entity : T) (i : Text) (w : World C S)
      → Written d committed (create d self entity w).0 w.1 (create d self entity w).1.1
        × Written d committed (update d self entity w).0 w.1 (update d self entity w).1.1
        × Written d committed (delete d self i w).0 w.1 (delete d self i w).1.1
  writes_are_committed entity i w =
      (create-Written entity w, update-Written entity w, delete-Written i w)
