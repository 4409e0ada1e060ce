-- ===== src/Postgres/Repository.antt =====
-- repository.py of the PostgreSQL adapter: `PostgresRepository` and its methods.
use openframe_adapters.Prelude.{
  ℕ, Bool, ◌||◌, Option, none, some, List, [], ◌∷◌, Text, codes, eq_text, if◌then◌else◌, String,
}
use openframe_adapters.Effect.{
  Outcome, ok, raised, Action, ◌>>=◌, ◌>>◌, pure, raise, gets, modify, catch, finally,
}
use openframe_adapters.Effect.Errors.{
  Failure, outside, connection_error, timeout_error, query_error, configuration_error, is_exception,
  PluginHealth, literal, str_of, ready, failed, is_ready,
}
use openframe_adapters.Dict.{lookup, pop}
use openframe_adapters.Postgres.Driver.{
  Driver, PostgresSettings, RepositoryClass, identifier, number, asyncio_timeout,
  connection_does_not_exist, connection_failure, interface_error, too_many_connections,
  postgres_error, builtin_exception,
}
use openframe_adapters.Postgres.Connection.{
  World, call, hook, translate, failure, pool_key, pool_key_eq, get_postgres_pool,
}
pub use openframe_adapters.Sql.{or_default}
use openframe_adapters.Postgres.Statements.{
  get_query, rows_query, count_query, delete_query, create_query, create_arguments, update_cols,
  update_query, update_arguments,
}

-- `_settings`, `_table`, `_id_column` and the class of the object
pub record Repo (V R X T : Type 0) : Type 0 where
  pub settings : PostgresSettings
  pub table : Text
  pub id_column : Text
  pub class_of : RepositoryClass V R X T

module _ {C K S V R X : Type 0} (d : Driver C K S V R X) where
  -- `__init__`; an argument that is not given is the empty text.
  unfoldable pub new_repository :
      {T : Type 0}
      → PostgresSettings
      → Text
      → Text
      → RepositoryClass V R X T
      → Outcome (Failure X) (Repo V R X T)
  new_repository settings table id_column cls = elim (or_default table cls.class_table) [
    | [] ↦ raised (failure d settings configuration_error "init" none)
    | c ∷ cs ↦ ok (record {
      settings = settings;
      table = c ∷ cs;
      id_column = or_default id_column cls.class_id_column;
      class_of = cls;
    })
  ]

  -- `isinstance(exc, _CONNECTION_ERRORS)`
  abbrev pub is_lost : X → Bool
  is_lost exc =
      d.isinstance exc connection_does_not_exist
      || d.isinstance exc connection_failure
      || d.isinstance exc interface_error
      || d.isinstance exc too_many_connections

  -- `_wrap_asyncpg`
  unfoldable pub wrap_asyncpg : PostgresSettings → X → String → Failure X
  wrap_asyncpg settings exc op =
      if is_lost exc
      then failure d settings connection_error op (some exc)
      else failure d settings query_error op (some exc)

  -- The `except` clauses of every statement, in order.
  unfoldable pub statement_error : PostgresSettings → String → X → Failure X
  unfolding wrap_asyncpg
  statement_error settings op exc =
      if d.isinstance exc asyncio_timeout
      then failure d settings timeout_error op (some exc)
      else if d.isinstance exc postgres_error || d.isinstance exc interface_error
      then wrap_asyncpg settings exc op
      else outside exc

  module _ {T : Type 0} (self : Repo V R X T) where
    -- The calls of `_row_to_entity` and `_entity_to_row`.
    unfoldable pub entity_of : Option R → Action (World C S) (Failure X) T
    entity_of row = hook (self.class_of.row_to_entity row)

    unfoldable pub row_of : T → Action (World C S) (Failure X) (List (Text × V))
    row_of entity = hook (self.class_of.entity_to_row entity)

    unfoldable pub get : Text → Action (World C S) (Failure X) (Option T)
    get entity_id = do
      pool ← get_postgres_pool d self.settings
      row ←
          translate (statement_error self.settings "get") (
            call
              (d.fetchrow pool (get_query self.table self.id_column) (identifier entity_id ∷ [])))
      elim row [ none ↦ pure none | some r ↦ (do e ← entity_of (some r); pure (some e)) ]

    -- Both queries of `list`, on one connection.
    unfoldable pub both_queries : ℕ → ℕ → K → Action (World C S) (Failure X) (List R × ℕ)
    both_queries limit offset conn = do
      rows ←
          call (
            d.fetch conn (rows_query self.table self.id_column) (number limit ∷ number offset ∷ []))
      count ← call (d.fetch_count conn (count_query self.table))
      pure (rows, count)

    -- `async with pool.acquire() as conn:` with both.
    unfoldable pub rows_and_count : ℕ → ℕ → C → Action (World C S) (Failure X) (List R × ℕ)
    rows_and_count limit offset pool = do
      conn ← call (d.acquire pool)
      finally (both_queries limit offset conn) (call (d.release pool conn))

    -- `[self._row_to_entity(r) for r in rows]`
    unfoldable pub entities_of : List R → Action (World C S) (Failure X) (List T)
    entities_of [] = pure []
    entities_of (r ∷ rs) = do e ← entity_of (some r); es ← entities_of rs; pure (e ∷ es)

    unfoldable pub list : ℕ → ℕ → Action (World C S) (Failure X) (List T × ℕ)
    unfolding rows_and_count entities_of
    list limit offset = do
      pool ← get_postgres_pool d self.settings
      (rows, count) ←
          translate (statement_error self.settings "list") (rows_and_count limit offset pool)
      entities ← entities_of rows
      pure (entities, count)

    unfoldable pub create : T → Action (World C S) (Failure X) T
    create entity = do
      pool ← get_postgres_pool d self.settings
      row_dict ← row_of entity
      row ←
          translate (statement_error self.settings "create")
            (call (d.fetchrow pool (create_query self.table row_dict) (create_arguments row_dict)))
      entity_of row

    unfoldable pub update : T → Action (World C S) (Failure X) (Option T)
    update entity = do
      pool ← get_postgres_pool d self.settings
      row_dict ← row_of entity
      elim (update_cols self.id_column row_dict) [
        | [] ↦ raise (failure d self.settings query_error "update" none)
        | c ∷ cs ↦ (do
          row ← translate (statement_error self.settings "update") (
              call (
                d.fetchrow pool (update_query self.table self.id_column (c ∷ cs))
                  (update_arguments self.id_column row_dict (c ∷ cs))))
          elim row [ none ↦ pure none | some r ↦ (do e ← entity_of (some r); pure (some e)) ])
      ]

    unfoldable pub delete : Text → Action (World C S) (Failure X) Bool
    delete entity_id = do
      pool ← get_postgres_pool d self.settings
      status ← translate (statement_error self.settings "delete") (
          call
            (d.execute pool (delete_query self.table self.id_column) (identifier entity_id ∷ [])))
      pure (eq_text status (codes "DELETE 1"))

  module _ (settings : PostgresSettings) where
    -- The pool is closed first, and leaves the cache if that returns.
    unfoldable pub close : Action (World C S) (Failure X) (Unit {0})
    close = do
      pool ← gets (λ w. lookup (pool_key settings) w.pool_cache)
      elim pool [
        | none ↦ pure tt
        | some c ↦ (do
          call (d.close c)
          modify (λ w. record w { pool_cache = pop (pool_key settings) w.pool_cache }))
      ]

    unfoldable pub health : Action (World C S) (Failure X) (PluginHealth X)
    health =
        catch
          (do
            pool ← get_postgres_pool d settings
            call (d.select_one pool)
            pure (record { status = ready; message = literal "" }))
          (λ e.
            if is_exception (λ x. d.isinstance x builtin_exception) e
            then pure (record { status = failed; message = str_of e })
            else raise e)

    unfoldable pub initialize : Action (World C S) (Failure X) (Unit {0})
    initialize = do
      get_postgres_pool d settings
      h ← health
      if is_ready h.status
          then pure tt
          else raise (failure d settings connection_error "initialize" none)

    unfoldable pub shutdown : Action (World C S) (Failure X) (Unit {0})
    shutdown = close
