-- ===== src/Falkor/Repository.antt =====
-- repository.py of the FalkorDB adapter: `FalkorDBRepository` and its methods.
use openframe_adapters.Prelude.{
  contains, ℕ, Bool, true, false, ◌||◌, ltb, Option, none, some, ◌⊎◌, inl, inr, List, [], ◌∷◌, Text,
  codes, if◌then◌else◌, String,
}
use openframe_adapters.Effect.{Outcome, Action, ◌>>=◌, ◌>>◌, pure, raise, gets, catch}
use openframe_adapters.Effect.Errors.{
  Failure, failure_of, outside, connection_error, query_error, timeout_error, PluginHealth,
}
use openframe_adapters.Effect.Objects
use openframe_adapters.Effect.Objects.{call, hook, translate}
use openframe_adapters.Dict.{Dict, text_eq, lookup, pop}
use openframe_adapters.Lifecycle.Checks.{probed, checked}
use openframe_adapters.Falkor.Driver.{
  Driver, FalkordbSettings, Cell, node, scalar, Param, text_param, number_param, properties_param,
  asyncio_timeout, redis_connection, redis_timeout, redis_response, builtin_exception,
}
use openframe_adapters.Falkor.Connection.{World, client_key, client_key_eq, get_falkordb_client}
use openframe_adapters.Falkor.Queries.{
  get_query, rows_query, count_query, create_query, update_query, delete_query,
}

-- The class of a repository: the hooks `_entity_to_properties` and `_node_to_entity`.
pub record RepositoryClass (J X T : Type 0) : Type 0 where
  pub entity_to_properties : T → Outcome X (Dict Text J)
  pub node_to_entity : Cell J → Outcome X T

-- `_settings`, of which `_label` is the node label, and the class of the object
pub record Repo (J X T : Type 0) : Type 0 where
  pub settings : FalkordbSettings
  pub class_of : RepositoryClass J X T

module _ {C G J S X : Type 0} (d : Driver C G J S X) where
  -- `(ConnectionError, AuthenticationError, TimeoutError)`
  abbrev pub is_connection : X → Bool
  is_connection exc = d.isinstance exc redis_connection || d.isinstance exc redis_timeout

  unfoldable pub wrap_falkordb : FalkordbSettings → X → String → Failure X
  wrap_falkordb settings exc op =
      if d.isinstance exc asyncio_timeout
      then failure_of settings.adapter_name timeout_error op (some exc)
      else if is_connection exc
      then failure_of settings.adapter_name connection_error op (some exc)
      else failure_of settings.adapter_name query_error op (some exc)

  -- The `except` clause of the operations.
  unfoldable pub statement_error : FalkordbSettings → String → X → Failure X
  unfolding wrap_falkordb
  statement_error settings op exc =
      if d.isinstance exc asyncio_timeout || d.isinstance exc redis_response || is_connection exc
      then wrap_falkordb settings exc op
      else outside exc

  module _ {T : Type 0} (self : Repo J X T) where
    unfoldable pub get_graph : Action (World C S) (Failure X) G
    get_graph = do
      client ← get_falkordb_client d self.settings
      call (d.select_graph client self.settings.graph_name)

    -- The `except` clauses of `_ensure_ready`: a response error that says `already` is none.
    abbrev pub constraint_failed : Failure X → Action (World C S) (Failure X) (Unit {0})
    constraint_failed (outside exc) =
        if d.isinstance exc redis_response
        then (if contains (d.lower_message exc) (codes "already")
            then pure tt
            else raise (wrap_falkordb self.settings exc "ensure_constraint"))
        else if d.isinstance exc asyncio_timeout || is_connection exc
        then raise (wrap_falkordb self.settings exc "ensure_constraint")
        else raise (outside exc)
    constraint_failed other = raise other

    unfoldable pub ensure_ready : Action (World C S) (Failure X) (Unit {0})
    unfolding wrap_falkordb get_graph
    ensure_ready = do
      ensured ← gets (λ w. w.0.constraint_ensured)
      elim ensured [
        | true ↦ pure tt
        | false ↦ (do
          graph ← get_graph
          catch (call (d.create_constraint graph self.settings.node_label (codes "id")))
              constraint_failed
          Objects.update (λ p. record p { constraint_ensured = true }))
      ]

    -- The calls of `_node_to_entity` and `_entity_to_properties`.
    unfoldable pub entity_of : Cell J → Action (World C S) (Failure X) T
    entity_of cell = hook (self.class_of.node_to_entity cell)

    unfoldable pub properties_of : T → Action (World C S) (Failure X) (Dict Text J)
    properties_of entity = hook (self.class_of.entity_to_properties entity)

    -- `row[0]`
    unfoldable pub first_cell : List (Cell J) → Action (World C S) (Failure X) (Cell J)
    first_cell [] = raise (outside d.index_error)
    first_cell (cell ∷ _) = pure cell

    -- `result.result_set[0][0]` as an entity
    abbrev pub first_entity : List (List (Cell J)) → Action (World C S) (Failure X) T
    first_entity [] = raise (outside d.index_error)
    first_entity (row ∷ _) = do cell ← first_cell row; entity_of cell

    -- The same, with `None` for an empty result.
    abbrev pub found : List (List (Cell J)) → Action (World C S) (Failure X) (Option T)
    found [] = pure none
    found (row ∷ rows) = do e ← first_entity (row ∷ rows); pure (some e)

    -- `str(properties.get("id", ""))`
    abbrev pub id_text : Dict Text J → Text
    id_text properties = elim (lookup (codes "id") properties) [ none ↦ [] | some v ↦ d.str v ]

    unfoldable pub get : Text → Action (World C S) (Failure X) (Option T)
    unfolding ensure_ready get_graph statement_error first_cell entity_of
    get entity_id = do
      ensure_ready
      graph ← get_graph
      result ← translate (statement_error self.settings "get") (
          call (
            d.query graph (get_query self.settings.node_label)
              ((codes "id", text_param entity_id) ∷ [])))
      found result.result_set

    -- `[self._node_to_entity(row[0]) for row in rows_result.result_set]`
    unfoldable pub entities_of : List (List (Cell J)) → Action (World C S) (Failure X) (List T)
    unfolding first_cell entity_of
    entities_of [] = pure []
    entities_of (row ∷ rows) = do
      cell ← first_cell row
      e ← entity_of cell
      es ← entities_of rows
      pure (e ∷ es)

    -- `int(count_result.result_set[0][0]) if count_result.result_set else 0`
    abbrev pub total_of : List (List (Cell J)) → Action (World C S) (Failure X) ℕ
    total_of [] = pure 0
    total_of (row ∷ _) = do cell ← first_cell row; hook (d.int_of cell)

    unfoldable pub list : ℕ → ℕ → Action (World C S) (Failure X) (List T × ℕ)
    unfolding ensure_ready get_graph statement_error entities_of
    list limit offset = do
      ensure_ready
      graph ← get_graph
      (rows, counted) ← translate (statement_error self.settings "list") (do
        r ← call (
            d.query graph (rows_query self.settings.node_label)
              ((codes "offset", number_param offset) ∷ (codes "limit", number_param limit) ∷ []))
        c ← call (d.query graph (count_query self.settings.node_label) [])
        pure (r, c))
      entities ← entities_of rows.result_set
      total ← total_of counted.result_set
      pure (entities, total)

    unfoldable pub create : T → Action (World C S) (Failure X) T
    unfolding ensure_ready get_graph statement_error first_cell entity_of
    create entity = do
      ensure_ready
      properties ← properties_of entity
      elim (id_text properties) [
        | [] ↦ raise (failure_of self.settings.adapter_name query_error "create" none)
        | c ∷ cs ↦ (do
          graph ← get_graph
          result ← translate (statement_error self.settings "create") (
              call (
                d.query graph (create_query self.settings.node_label)
                  ((codes "props", properties_param properties) ∷ [])))
          first_entity result.result_set)
      ]

    unfoldable pub update : T → Action (World C S) (Failure X) (Option T)
    unfolding ensure_ready get_graph statement_error first_cell entity_of
    update entity = do
      ensure_ready
      properties ← properties_of entity
      graph ← get_graph
      result ← translate (statement_error self.settings "update") (
          call (
            d.query graph (update_query self.settings.node_label) (
              (codes "id", text_param (id_text properties))
              ∷ (codes "props", properties_param properties)
              ∷ [])))
      found result.result_set

    unfoldable pub delete : Text → Action (World C S) (Failure X) Bool
    unfolding ensure_ready get_graph statement_error
    delete entity_id = do
      ensure_ready
      graph ← get_graph
      result ← translate (statement_error self.settings "delete") (
          call (
            d.query graph (delete_query self.settings.node_label)
              ((codes "id", text_param entity_id) ∷ [])))
      pure (ltb 0 result.nodes_deleted)

    -- The loop of `traverse`: nodes become entities, other values stay, empty rows are skipped.
    unfoldable pub traversed : List (List (Cell J)) → Action (World C S) (Failure X) (List (T ⊎ J))
    unfolding entity_of
    traversed [] = pure []
    traversed ([] ∷ rows) = traversed rows
    traversed ((scalar v ∷ _) ∷ rows) = do es ← traversed rows; pure (inr v ∷ es)
    traversed ((node properties ∷ _) ∷ rows) = do
      e ← entity_of (node properties)
      es ← traversed rows
      pure (inl e ∷ es)

    -- A query of the caller, with its parameters or none.
    unfoldable pub traverse :
        Text → List (Text × Param J) → Action (World C S) (Failure X) (List (T ⊎ J))
    unfolding get_graph statement_error traversed
    traverse query params = do
      graph ← get_graph
      result ←
          translate (statement_error self.settings "traverse") (call (d.query graph query params))
      traversed result.result_set

    -- The client leaves the cache before it is closed.
    unfoldable pub close : Action (World C S) (Failure X) (Unit {0})
    close = do
      client ← gets (λ w. lookup (client_key self.settings) w.0.client_cache)
      Objects.update
          (λ p. record p { client_cache = pop (client_key self.settings) p.client_cache })
      elim client [ none ↦ pure tt | some c ↦ call (d.aclose c) ]

    unfoldable pub health : Action (World C S) (Failure X) (PluginHealth X)
    unfolding probed
    health =
        probed (λ x. d.isinstance x builtin_exception)
          (do client ← get_falkordb_client d self.settings; call (d.ping client))

    unfoldable pub initialize : Action (World C S) (Failure X) (Unit {0})
    unfolding health checked ensure_ready
    initialize = do
      get_falkordb_client d self.settings
      ensure_ready
      checked (failure_of self.settings.adapter_name connection_error "initialize" none) health

    unfoldable pub shutdown : Action (World C S) (Failure X) (Unit {0})
    shutdown = close
