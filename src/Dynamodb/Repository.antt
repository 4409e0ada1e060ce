-- ===== src/Dynamodb/Repository.antt =====
-- repository.py of the DynamoDB adapter: `DynamoDBRepository` and its methods. The loops of `list` run
-- on fuel and return `none` where it is used up.
use openframe_adapters.Prelude.{
  ℕ, zero, suc, ◌+◌, Bool, true, false, Option, none, some, List, [], ◌∷◌, ◌++◌, Text, codes,
  eq_text, length, take, drop, leb, ◌||◌, if◌then◌else◌, String,
}
use openframe_adapters.Effect.{Action, Outcome, ◌>>=◌, ◌>>◌, pure, raise, catch}
use openframe_adapters.Effect.Errors.{
  Failure, failure_of, outside, connection_error, timeout_error, query_error, PluginHealth,
}
use openframe_adapters.Effect.Objects.{call, hook, translate}
use openframe_adapters.Lifecycle.Checks.{probed, checked}
use openframe_adapters.Sql.{or_default}
use openframe_adapters.Dynamodb.Driver.{
  Driver, DynamodbSettings, asyncio_timeout, endpoint_connection_error, builtin_connection_error,
  client_error, botocore_error, builtin_exception,
}
use openframe_adapters.Dynamodb.Connection.{World, get_dynamodb_table, close_dynamodb_table}

-- The class of a repository: its `_id_column` and the hooks `_row_to_entity` and `_entity_to_row`.
pub record RepositoryClass (R X T : Type 0) : Type 0 where
  pub class_id_column : Text
  pub row_to_entity : R → Outcome X T
  pub entity_to_row : T → Outcome X R

-- `_settings`, `_id_column` and the class of the object
pub record Repo (R X T : Type 0) : Type 0 where
  pub settings : DynamodbSettings
  pub id_column : Text
  pub class_of : RepositoryClass R X T

-- `__init__`; an argument that is not given is the empty text.
unfoldable pub new_repository :
    {R X T : Type 0} → DynamodbSettings → Text → RepositoryClass R X T → Repo R X T
new_repository settings id_column cls = record {
  settings = settings;
  id_column = or_default id_column cls.class_id_column;
  class_of = cls;
}

-- `code in _THROTTLING_ERROR_CODES`
abbrev pub is_throttling : Text → Bool
is_throttling code =
    eq_text code (codes "ProvisionedThroughputExceededException")
    || eq_text code (codes "ThrottlingException")
    || eq_text code (codes "RequestLimitExceeded")

-- `response.get(key, default)`
abbrev pub get_or : {A : Type 0} → A → Option A → A
get_or fallback none = fallback
get_or fallback (some a) = a

module _ {B R L S X : Type 0} (d : Driver B R L S X) where
  unfoldable pub wrap_botocore : DynamodbSettings → X → String → Failure X
  wrap_botocore settings exc op =
      if d.isinstance exc endpoint_connection_error || d.isinstance exc builtin_connection_error
      then failure_of settings.adapter_name connection_error op (some exc)
      else if d.isinstance exc client_error
      then (if is_throttling (d.code_of exc)
          then failure_of settings.adapter_name connection_error op (some exc)
          else failure_of settings.adapter_name query_error op (some exc))
      else failure_of settings.adapter_name query_error op (some exc)

  -- The `except` clauses of the operations, in order.
  unfoldable pub statement_error : DynamodbSettings → String → X → Failure X
  unfolding wrap_botocore
  statement_error settings op exc =
      if d.isinstance exc asyncio_timeout
      then failure_of settings.adapter_name timeout_error op (some exc)
      else if d.isinstance exc client_error || d.isinstance exc botocore_error
      then wrap_botocore settings exc op
      else outside exc

  -- The first loop of `list`: pages until the last one, or until `needed` items are there.
  unfoldable pub scan_items :
      ℕ → B → ℕ → Option L → List R → Action (World B S) (Failure X) (Option (List R))
  scan_items zero table needed start items = pure none
  scan_items (suc fuel) table needed start items = do
    response ← call (d.scan table (record { select_count = false; exclusive_start_key = start }))
    let more = items ++ get_or [] response.items
    elim response.last_evaluated_key [
      | none ↦ pure (some more)
      | some key ↦ elim (leb needed (length more)) [
        | true ↦ pure (some more)
        | false ↦ scan_items fuel table needed (some key) more
      ]
    ]

  -- The second loop of `list`: the counts of all pages.
  unfoldable pub scan_count : ℕ → B → Option L → ℕ → Action (World B S) (Failure X) (Option ℕ)
  scan_count zero table start count = pure none
  scan_count (suc fuel) table start count = do
    response ← call (d.scan table (record { select_count = true; exclusive_start_key = start }))
    let more = count + get_or 0 response.count
    elim response.last_evaluated_key [
      | none ↦ pure (some more)
      | some key ↦ scan_count fuel table (some key) more
    ]

  -- Both loops.
  unfoldable pub both_scans : ℕ → B → ℕ → Action (World B S) (Failure X) (Option (List R × ℕ))
  unfolding scan_items scan_count
  both_scans fuel table needed = do
    items ← scan_items fuel table needed none []
    elim items [
      | none ↦ pure none
      | some rows ↦ (do
        count ← scan_count fuel table none 0
        elim count [ none ↦ pure none | some n ↦ pure (some (rows, n)) ])
    ]

  module _ {T : Type 0} (self : Repo R X T) where
    -- The calls of `_row_to_entity` and `_entity_to_row`.
    unfoldable pub entity_of : R → Action (World B S) (Failure X) T
    entity_of row = hook (self.class_of.row_to_entity row)

    unfoldable pub row_of : T → Action (World B S) (Failure X) R
    row_of entity = hook (self.class_of.entity_to_row entity)

    -- `[self._row_to_entity(i) for i in page]`
    unfoldable pub entities_of : List R → Action (World B S) (Failure X) (List T)
    entities_of [] = pure []
    entities_of (r ∷ rs) = do e ← entity_of r; es ← entities_of rs; pure (e ∷ es)

    unfoldable pub get : Text → Action (World B S) (Failure X) (Option T)
    get entity_id = do
      table ← get_dynamodb_table d self.settings
      item ←
          translate (statement_error self.settings "get")
            (call (d.get_item table (self.id_column, entity_id)))
      elim item [ none ↦ pure none | some row ↦ (do e ← entity_of row; pure (some e)) ]

    unfoldable pub list : ℕ → ℕ → ℕ → Action (World B S) (Failure X) (Option (List T × ℕ))
    unfolding both_scans entities_of
    list fuel limit offset = do
      table ← get_dynamodb_table d self.settings
      scanned ←
          translate (statement_error self.settings "list") (both_scans fuel table (offset + limit))
      elim scanned [
        | none ↦ pure none
        | some result ↦ (do
          entities ← entities_of (drop offset (take (offset + limit) result.0))
          pure (some (entities, result.1)))
      ]

    unfoldable pub create : T → Action (World B S) (Failure X) T
    create entity = do
      table ← get_dynamodb_table d self.settings
      row ← row_of entity
      translate (statement_error self.settings "create") (call (d.put_item table row))
      pure entity

    -- The `except` clauses of `update`: a failed condition is no error.
    abbrev pub update_failed : Failure X → Action (World B S) (Failure X) (Option T)
    update_failed (outside exc) =
        if d.isinstance exc asyncio_timeout
        then raise (failure_of self.settings.adapter_name timeout_error "update" (some exc))
        else if d.isinstance exc client_error
        then (if eq_text (d.code_of exc) (codes "ConditionalCheckFailedException")
            then pure none
            else raise (wrap_botocore self.settings exc "update"))
        else if d.isinstance exc botocore_error
        then raise (wrap_botocore self.settings exc "update")
        else raise (outside exc)
    update_failed other = raise other

    unfoldable pub update : T → Action (World B S) (Failure X) (Option T)
    unfolding wrap_botocore
    update entity = do
      table ← get_dynamodb_table d self.settings
      row ← row_of entity
      catch (do call (d.put_existing_item table row self.id_column); pure (some entity))
          update_failed

    unfoldable pub delete : Text → Action (World B S) (Failure X) Bool
    delete entity_id = do
      table ← get_dynamodb_table d self.settings
      attributes ←
          translate (statement_error self.settings "delete")
            (call (d.delete_item table (self.id_column, entity_id)))
      elim attributes [ none ↦ pure false | some old ↦ pure true ]

  module _ (settings : DynamodbSettings) where
    unfoldable pub close : Action (World B S) (Failure X) (Unit {0})
    close = close_dynamodb_table d settings

    unfoldable pub health : Action (World B S) (Failure X) (PluginHealth X)
    unfolding probed
    health =
        probed (λ x. d.isinstance x builtin_exception)
          (do
            table ← get_dynamodb_table d settings
            call (d.describe_table table settings.table_name))

    unfoldable pub initialize : Action (World B S) (Failure X) (Unit {0})
    unfolding health checked
    initialize = do
      get_dynamodb_table d settings
      checked (failure_of settings.adapter_name connection_error "initialize" none) health

    unfoldable pub shutdown : Action (World B S) (Failure X) (Unit {0})
    shutdown = close
