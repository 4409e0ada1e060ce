-- ===== src/Mysql/Repository.antt =====
-- repository.py of the MySQL adapter: `MySQLRepository` and its methods.
use openframe_adapters.Prelude.{
  ℕ, Bool, ◌==◌, Option, none, some, List, [], ◌∷◌, Text, codes, if◌then◌else◌,
}
use openframe_adapters.Effect.{Outcome, ok, raised, Action, ◌>>=◌, ◌>>◌, pure, raise, gets, catch}
use openframe_adapters.Effect.Errors.{
  Failure, connection_error, query_error, configuration_error, is_exception, PluginHealth, literal,
  str_of, ready, failed, is_ready,
}
use openframe_adapters.Effect.Objects
use openframe_adapters.Effect.Objects.{call, hook, translate}
use openframe_adapters.Dict.{lookup, pop}
use openframe_adapters.Sql.{
  Argument, identifier, number, RepositoryClass, or_default, update_cols, id_argument,
}
use openframe_adapters.Mysql.Driver.{Driver, MysqlSettings, builtin_exception}
use openframe_adapters.Mysql.Errors.{statement_error}
use openframe_adapters.Mysql.Cursors.{reading, writing}
use openframe_adapters.Mysql.Connection.{World, failure, pool_key, pool_key_eq, get_mysql_pool}
use openframe_adapters.Mysql.Statements.{
  select_query, rows_query, count_query, delete_query, insert_query, insert_arguments, update_query,
  update_arguments, stored_id,
}

-- `_settings`, `_table`, `_id_column` and the class of the object
pub record Repo (V R X T : Type 0) : Type 0 where
  pub settings : MysqlSettings
  pub table : Text
  pub id_column : Text
  pub class_of : RepositoryClass V R X T

-- `__init__`; an argument that is not given is the empty text.
unfoldable pub new_repository :
    {V R X T : Type 0}
    → MysqlSettings
    → Text
    → Text
    → RepositoryClass V R X T
    → Outcome (Failure X) (Repo V R X T)
new_repository settings table id_column cls = elim (or_default table cls.class_table) [
  | [] ↦ raised (failure settings configuration_error "init" none)
  | c ∷ cs ↦ ok (record {
    settings = settings;
    table = c ∷ cs;
    id_column = or_default id_column cls.class_id_column;
    class_of = cls;
  })
]

module _ {C K U V R S X : Type 0} (d : Driver C K U V R S X) where
  module _ {T : Type 0} (self : Repo V R X T) where
    -- The calls of `_row_to_entity` and `_entity_to_row`.
    unfoldable pub entity_of : Option R → Action (World C S) (Failure X) T
    entity_of row = hook (self.class_of.row_to_entity row)

    unfoldable pub row_of : T → Action (World C S) (Failure X) (List (Text × V))
    row_of entity = hook (self.class_of.entity_to_row entity)

    abbrev pub found : Option R → Action (World C S) (Failure X) (Option T)
    found none = pure none
    found (some r) = do e ← entity_of (some r); pure (some e)

    -- Run the `SELECT` of one row.
    abbrev pub fetch_stored : Argument V → U → Action (World C S) (Failure X) (Option R)
    fetch_stored entity_id cur = do
      call (d.execute cur (select_query self.table self.id_column) (entity_id ∷ []))
      call (d.fetchone cur)

    unfoldable pub get : Text → Action (World C S) (Failure X) (Option T)
    unfolding reading
    get entity_id = do
      pool ← get_mysql_pool d self.settings
      row ←
          translate (statement_error d self.settings "get")
            (reading d pool (fetch_stored (identifier entity_id)))
      found row

    -- Both queries of `list`, on one cursor.
    unfoldable pub both_queries : ℕ → ℕ → U → Action (World C S) (Failure X) (List R × ℕ)
    both_queries limit offset cur = do
      call
          (d.execute cur (rows_query self.table self.id_column) (number limit ∷ number offset ∷ []))
      rows ← call (d.fetchall cur)
      call (d.execute cur (count_query self.table) [])
      count ← call (d.fetch_count cur)
      pure (rows, elim count [ none ↦ 0 | some n ↦ n ])

    -- `[self._row_to_entity(r) for r in rows]`
    unfoldable pub entities_of : List R → Action (World C S) (Failure X) (List T)
    entities_of [] = pure []
    entities_of (r ∷ rs) = do e ← entity_of (some r); es ← entities_of rs; pure (e ∷ es)

    unfoldable pub list : ℕ → ℕ → Action (World C S) (Failure X) (List T × ℕ)
    unfolding reading both_queries entities_of
    list limit offset = do
      pool ← get_mysql_pool d self.settings
      (rows, count) ←
          translate (statement_error d self.settings "list")
            (reading d pool (both_queries limit offset))
      entities ← entities_of rows
      pure (entities, count)

    -- `INSERT`, then `SELECT` of the row by its identifier or by `lastrowid`.
    unfoldable pub insert_statements :
        List (Text × V) → U → Action (World C S) (Failure X) (Option R)
    insert_statements row_dict cur = do
      call (d.execute cur (insert_query self.table row_dict) (insert_arguments row_dict))
      entity_id ← gets (λ w. stored_id self.id_column row_dict (d.lastrowid cur w.1))
      fetch_stored entity_id cur

    unfoldable pub create : T → Action (World C S) (Failure X) T
    unfolding writing insert_statements
    create entity = do
      pool ← get_mysql_pool d self.settings
      row_dict ← row_of entity
      row ←
          translate (statement_error d self.settings "create")
            (writing d pool (insert_statements row_dict))
      entity_of row

    -- `UPDATE`, then `SELECT` of the row where `rowcount` is not 0.
    unfoldable pub update_statements :
        List (Text × V) → List (Text × V) → U → Action (World C S) (Failure X) (Option R)
    update_statements row_dict cols cur = do
      call (
          d.execute cur (update_query self.table self.id_column cols)
            (update_arguments self.id_column row_dict cols))
      matched ← gets (λ w. d.rowcount cur w.1)
      if matched == 0 then pure none else fetch_stored (id_argument self.id_column row_dict) cur

    unfoldable pub update : T → Action (World C S) (Failure X) (Option T)
    unfolding writing update_statements
    update entity = do
      pool ← get_mysql_pool d self.settings
      row_dict ← row_of entity
      elim (update_cols self.id_column row_dict) [
        | [] ↦ raise (failure self.settings query_error "update" none)
        | c ∷ cs ↦ (do
          row ←
              translate (statement_error d self.settings "update")
                (writing d pool (update_statements row_dict (c ∷ cs)))
          found row)
      ]

    unfoldable pub delete_statement : Text → U → Action (World C S) (Failure X) ℕ
    delete_statement entity_id cur = do
      call (d.execute cur (delete_query self.table self.id_column) (identifier entity_id ∷ []))
      gets (λ w. d.rowcount cur w.1)

    unfoldable pub delete : Text → Action (World C S) (Failure X) Bool
    unfolding writing delete_statement
    delete entity_id = do
      pool ← get_mysql_pool d self.settings
      deleted ←
          translate (statement_error d self.settings "delete")
            (writing d pool (delete_statement entity_id))
      pure (deleted == 1)

  module _ (settings : MysqlSettings) where
    -- The pool is closed first, and leaves the cache if that returns.
    unfoldable pub close : Action (World C S) (Failure X) (Unit {0})
    close = do
      pool ← gets (λ w. lookup (pool_key settings) w.0)
      elim pool [
        | none ↦ pure tt
        | some c ↦ (do
          call (d.close c)
          call (d.wait_closed c)
          Objects.update (pop (pool_key settings)))
      ]

    -- `SELECT 1` on a connection of the pool.
    unfoldable pub ping : C → Action (World C S) (Failure X) (Unit {0})
    unfolding reading
    ping pool =
        reading d pool
          (λ cur. do call (d.execute cur (codes "SELECT 1") []); call (d.fetchone cur); pure tt)

    unfoldable pub health : Action (World C S) (Failure X) (PluginHealth X)
    unfolding ping
    health =
        catch
          (do
            pool ← get_mysql_pool d settings
            ping pool
            pure (record { status = ready; message = literal "" }))
          (λ e.
            if is_exception (λ x. d.isinstance x builtin_exception) e
            then pure (record { status = failed; message = str_of e })
            else raise e)

    unfoldable pub initialize : Action (World C S) (Failure X) (Unit {0})
    initialize = do
      get_mysql_pool d settings
      h ← health
      if is_ready h.status
          then pure tt
          else raise (failure settings connection_error "initialize" none)

    unfoldable pub shutdown : Action (World C S) (Failure X) (Unit {0})
    shutdown = close
