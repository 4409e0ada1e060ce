-- ===== src/Cassandra/Repository.antt =====
-- repository.py of the Cassandra adapter: `CassandraRepository` and its methods. The texts of the
-- statements on one row are those of the MySQL adapter, letter by letter. That an authentication error is
-- marked as not to be retried is not kept.
use openframe_adapters.Prelude.{
  ℕ, ◌+◌, Bool, true, false, Option, none, some, ◌⊎◌, inl, inr, List, [], ◌∷◌, ◌++◌, Text, codes,
  take, drop, if◌then◌else◌, String,
}
use openframe_adapters.Effect.{Outcome, ok, raised, Action, ◌>>=◌, ◌>>◌, pure, raise, gets}
use openframe_adapters.Effect.Errors.{
  Failure, failure_of, outside, connection_error, query_error, timeout_error, configuration_error,
  PluginHealth,
}
use openframe_adapters.Effect.Objects
use openframe_adapters.Effect.Objects.{call, hook, translate, ignoring}
use openframe_adapters.Dict.{Dict, lookup, pop}
use openframe_adapters.Lifecycle.Checks.{probed, checked}
use openframe_adapters.Sql.{Argument, identifier, number, or_default, update_cols, id_argument}
use openframe_adapters.Mysql.Statements.{
  select_query, delete_query, insert_query, insert_arguments, update_query, update_arguments,
}
use openframe_adapters.Cassandra.Driver.{
  Driver, CassandraSettings, asyncio_timeout, authentication_failed, connection_exception,
  coordinator_timeout, builtin_exception,
}
use openframe_adapters.Cassandra.Connection.{
  World, session_key, session_key_eq, get_cassandra_session,
}

-- The class of a repository: its `_table` and `_id_column`, and the hooks `_row_to_entity`, on a row of the
-- driver or the dict of an entity, and `_entity_to_row`.
pub record RepositoryClass (V R X T : Type 0) : Type 0 where
  pub class_table : Text
  pub class_id_column : Text
  pub row_to_entity : R ⊎ Dict Text V → Outcome X T
  pub entity_to_row : T → Outcome X (Dict Text V)

-- `_settings`, `_table`, `_id_column` and the class of the object
pub record Repo (V R X T : Type 0) : Type 0 where
  pub settings : CassandraSettings
  pub table : Text
  pub id_column : Text
  pub class_of : RepositoryClass V R X T

-- `__init__`; an argument that is not given is the empty text.
unfoldable pub new_repository :
    {V R X T : Type 0}
    → CassandraSettings
    → Text
    → Text
    → RepositoryClass V R X T
    → Outcome (Failure X) (Repo V R X T)
new_repository settings table id_column cls = elim (or_default table cls.class_table) [
  | [] ↦ raised (failure_of settings.adapter_name configuration_error "init" none)
  | c ∷ cs ↦ ok (record {
    settings = settings;
    table = c ∷ cs;
    id_column = or_default id_column cls.class_id_column;
    class_of = cls;
  })
]

unfoldable pub rows_query : Text → Text
rows_query table = codes "SELECT * FROM " ++ (table ++ codes " LIMIT %s")

unfoldable pub count_query : Text → Text
count_query table = codes "SELECT COUNT(*) FROM " ++ table

-- The statement of `health`.
abbrev pub ping_query : Text
ping_query = codes "SELECT now() FROM system.local"

module _ {C V R S X : Type 0} (d : Driver C V R S X) where
  unfoldable pub wrap_cassandra : CassandraSettings → X → String → Failure X
  wrap_cassandra settings exc op =
      if d.isinstance exc authentication_failed
      then failure_of settings.adapter_name connection_error op (some exc)
      else if d.isinstance exc connection_exception
      then failure_of settings.adapter_name connection_error op (some exc)
      else if d.isinstance exc coordinator_timeout
      then failure_of settings.adapter_name timeout_error op (some exc)
      else failure_of settings.adapter_name query_error op (some exc)

  -- The `except` clauses of `_execute`; the second one takes every `Exception`.
  unfoldable pub statement_error : CassandraSettings → String → X → Failure X
  unfolding wrap_cassandra
  statement_error settings op exc =
      if d.isinstance exc asyncio_timeout
      then failure_of settings.adapter_name timeout_error op (some exc)
      else if d.isinstance exc builtin_exception
      then wrap_cassandra settings exc op
      else outside exc

  module _ {T : Type 0} (self : Repo V R X T) where
    unfoldable pub execute :
        Text → Option (List (Argument V)) → String → Action (World C S) (Failure X) (List R)
    unfolding statement_error
    execute query params op = do
      session ← get_cassandra_session d self.settings
      translate (statement_error self.settings op) (call (d.execute session query params))

    -- The calls of `_row_to_entity` and `_entity_to_row`.
    unfoldable pub entity_of : R ⊎ Dict Text V → Action (World C S) (Failure X) T
    entity_of row = hook (self.class_of.row_to_entity row)

    unfoldable pub row_of : T → Action (World C S) (Failure X) (Dict Text V)
    row_of entity = hook (self.class_of.entity_to_row entity)

    unfoldable pub get : Argument V → Action (World C S) (Failure X) (Option T)
    unfolding execute entity_of
    get entity_id = do
      rows ← execute (select_query self.table self.id_column) (some (entity_id ∷ [])) "get"
      elim rows [ [] ↦ pure none | r ∷ rs ↦ (do e ← entity_of (inl r); pure (some e)) ]

    -- `_extract_count` of the first row
    unfoldable pub extract_count : List R → Action (World C S) (Failure X) ℕ
    extract_count [] = pure 0
    extract_count (r ∷ _) = hook (d.first_int r)

    -- `[self._row_to_entity(r) for r in rows]`
    unfoldable pub entities_of : List R → Action (World C S) (Failure X) (List T)
    unfolding entity_of
    entities_of [] = pure []
    entities_of (r ∷ rs) = do e ← entity_of (inl r); es ← entities_of rs; pure (e ∷ es)

    unfoldable pub list : ℕ → ℕ → Action (World C S) (Failure X) (List T × ℕ)
    unfolding execute extract_count entities_of
    list limit offset = do
      all_rows ← execute (rows_query self.table) (some (number (limit + offset) ∷ [])) "list"
      count_rows ← execute (count_query self.table) none "list"
      count ← extract_count count_rows
      entities ← entities_of (drop offset (take (offset + limit) all_rows))
      pure (entities, count)

    unfoldable pub create : T → Action (World C S) (Failure X) T
    unfolding execute entity_of
    create entity = do
      row ← row_of entity
      execute (insert_query self.table row) (some (insert_arguments row)) "create"
      entity_of (inr row)

    unfoldable pub update : T → Action (World C S) (Failure X) (Option T)
    unfolding execute get entity_of
    update entity = do
      row ← row_of entity
      existing ← get (id_argument self.id_column row)
      elim existing [
        | none ↦ pure none
        | some e ↦ elim (update_cols self.id_column row) [
          | [] ↦ raise (failure_of self.settings.adapter_name query_error "update" none)
          | c ∷ cs ↦ (do
            execute (update_query self.table self.id_column (c ∷ cs))
                (some (update_arguments self.id_column row (c ∷ cs))) "update"
            updated ← entity_of (inr row)
            pure (some updated))
        ]
      ]

    unfoldable pub delete : Text → Action (World C S) (Failure X) Bool
    unfolding execute get
    delete entity_id = do
      existing ← get (identifier entity_id)
      elim existing [
        | none ↦ pure false
        | some e ↦ (do
          execute (delete_query self.table self.id_column) (some (identifier entity_id ∷ []))
              "delete"
          pure true)
      ]

  module _ (settings : CassandraSettings) where
    -- The session is shut down first, and leaves the cache if that returns.
    unfoldable pub close : Action (World C S) (Failure X) (Unit {0})
    close = do
      session ← gets (λ w. lookup (session_key settings) w.0)
      elim session [
        | none ↦ pure tt
        | some c ↦ (do call (d.shutdown c); Objects.update (pop (session_key settings)))
      ]

    unfoldable pub ping : C → Action (World C S) (Failure X) (Unit {0})
    ping session = do call (d.execute session ping_query none); pure tt

    unfoldable pub health : Action (World C S) (Failure X) (PluginHealth X)
    unfolding probed ping
    health =
        probed (λ x. d.isinstance x builtin_exception)
          (do session ← get_cassandra_session d settings; ping session)

    unfoldable pub initialize : Action (World C S) (Failure X) (Unit {0})
    unfolding health checked
    initialize = do
      get_cassandra_session d settings
      checked (failure_of settings.adapter_name connection_error "initialize" none) health

    -- `shutdown` swallows what `close` raises.
    unfoldable pub shutdown : Action (World C S) (Failure X) (Unit {0})
    unfolding close
    shutdown = ignoring (λ x. d.isinstance x builtin_exception) close
