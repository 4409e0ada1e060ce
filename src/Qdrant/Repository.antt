-- ===== src/Qdrant/Repository.antt =====
-- repository.py of the Qdrant adapter: `QdrantVectorStore` and its methods.
use openframe_adapters.Prelude.{
  ℕ, ◌+◌, Bool, true, false, ◌||◌, Option, none, some, List, [], ◌∷◌, Text, drop, if◌then◌else◌,
  String,
}
use openframe_adapters.Effect.{Outcome, ok, raised, Action, ◌>>=◌, ◌>>◌, pure, gets}
use openframe_adapters.Effect.Errors.{
  Failure, failure_of, outside, connection_error, timeout_error, query_error, configuration_error,
  PluginHealth,
}
use openframe_adapters.Effect.Objects
use openframe_adapters.Effect.Objects.{call, hook, translate, ignoring}
use openframe_adapters.Dict.{lookup, pop}
use openframe_adapters.Lifecycle.Checks.{probed, checked}
use openframe_adapters.Sql.{or_default}
use openframe_adapters.Qdrant.Driver.{
  Driver, QdrantSettings, Point, asyncio_timeout, response_handling_exception, unexpected_response,
  builtin_exception,
}
use openframe_adapters.Qdrant.Connection.{
  World, client_key, client_key_eq, is_refusal, get_qdrant_client,
}

-- The class of a store: its `_collection`, the hooks `_entity_to_point` and `_point_to_entity`, and
-- the `id` of an entity, as a key or an attribute.
pub record StoreClass (J X T : Type 0) : Type 0 where
  pub class_collection : Text
  pub entity_to_point : T → Outcome X (Point J)
  pub point_to_entity : Point J → Outcome X T
  pub id_of : T → Option J

-- `_settings`, `_collection` and the class of the object
pub record Store (J X T : Type 0) : Type 0 where
  pub settings : QdrantSettings
  pub collection : Text
  pub class_of : StoreClass J X T

-- `__init__`; an argument that is not given is the empty text.
unfoldable pub new_store :
    {J X T : Type 0} → QdrantSettings → Text → StoreClass J X T → Outcome (Failure X) (Store J X T)
new_store settings collection cls = elim (or_default collection cls.class_collection) [
  | [] ↦ raised (failure_of settings.adapter_name configuration_error "init" none)
  | c ∷ cs ↦ ok (record { settings = settings; collection = c ∷ cs; class_of = cls })
]

module _ {C J S X : Type 0} (d : Driver C J S X) where
  unfoldable pub wrap_qdrant : QdrantSettings → X → String → Failure X
  wrap_qdrant settings exc op =
      if d.isinstance exc response_handling_exception
      then failure_of settings.adapter_name connection_error op (some exc)
      else if d.isinstance exc unexpected_response
      then (if is_refusal (d.status_code exc)
          then failure_of settings.adapter_name query_error op (some exc)
          else failure_of settings.adapter_name connection_error op (some exc))
      else failure_of settings.adapter_name query_error op (some exc)

  -- The `except` clauses of the operations, in order.
  unfoldable pub statement_error : QdrantSettings → String → X → Failure X
  unfolding wrap_qdrant
  statement_error settings op exc =
      if d.isinstance exc asyncio_timeout
      then failure_of settings.adapter_name timeout_error op (some exc)
      else if d.isinstance exc response_handling_exception || d.isinstance exc unexpected_response
      then wrap_qdrant settings exc op
      else outside exc

  module _ {T : Type 0} (self : Store J X T) where
    -- The calls of `_point_to_entity` and `_entity_to_point`.
    unfoldable pub entity_of : Point J → Action (World C S) (Failure X) T
    entity_of point = hook (self.class_of.point_to_entity point)

    unfoldable pub point_of : T → Action (World C S) (Failure X) (Point J)
    point_of entity = hook (self.class_of.entity_to_point entity)

    -- `[self._point_to_entity(r) for r in page]`
    unfoldable pub entities_of : List (Point J) → Action (World C S) (Failure X) (List T)
    entities_of [] = pure []
    entities_of (p ∷ ps) = do e ← entity_of p; es ← entities_of ps; pure (e ∷ es)

    unfoldable pub upsert_point : T → String → Action (World C S) (Failure X) (Unit {0})
    unfolding statement_error
    upsert_point entity op = do
      client ← get_qdrant_client d self.settings
      point ← point_of entity
      translate (statement_error self.settings op)
          (call (d.upsert client self.collection (point ∷ [])))

    unfoldable pub get : J → Action (World C S) (Failure X) (Option T)
    unfolding statement_error
    get entity_id = do
      client ← get_qdrant_client d self.settings
      records ←
          translate (statement_error self.settings "get")
            (call (d.retrieve client self.collection (entity_id ∷ [])))
      elim records [ [] ↦ pure none | r ∷ rs ↦ (do e ← entity_of r; pure (some e)) ]

    -- Both calls of `list`.
    unfoldable pub scroll_and_count : C → ℕ → Action (World C S) (Failure X) (List (Point J) × ℕ)
    scroll_and_count client limit = do
      records ← call (d.scroll client self.collection limit)
      count ← call (d.count client self.collection)
      pure (records, count)

    unfoldable pub list : ℕ → ℕ → Action (World C S) (Failure X) (List T × ℕ)
    unfolding statement_error scroll_and_count entities_of
    list limit offset = do
      client ← get_qdrant_client d self.settings
      (records, count) ←
          translate (statement_error self.settings "list")
            (scroll_and_count client (limit + offset))
      entities ← entities_of (drop offset records)
      pure (entities, count)

    unfoldable pub create : T → Action (World C S) (Failure X) T
    unfolding upsert_point
    create entity = do upsert_point entity "create"; pure entity

    -- `await self.get(entity_id) if entity_id is not None else None`
    abbrev pub existing : Option J → Action (World C S) (Failure X) (Option T)
    existing none = pure none
    existing (some entity_id) = get entity_id

    unfoldable pub update : T → Action (World C S) (Failure X) (Option T)
    unfolding upsert_point
    update entity = do
      stored ← existing (self.class_of.id_of entity)
      elim stored [
        | none ↦ pure none
        | some e ↦ (do upsert_point entity "update"; pure (some entity))
      ]

    unfoldable pub delete : J → Action (World C S) (Failure X) Bool
    unfolding statement_error
    delete entity_id = do
      stored ← get entity_id
      elim stored [
        | none ↦ pure false
        | some e ↦ (do
          client ← get_qdrant_client d self.settings
          translate (statement_error self.settings "delete")
              (call (d.delete client self.collection (entity_id ∷ [])))
          pure true)
      ]

    unfoldable pub search : J → ℕ → Action (World C S) (Failure X) (List T)
    unfolding statement_error entities_of
    search query_vector k = do
      client ← get_qdrant_client d self.settings
      points ←
          translate (statement_error self.settings "search")
            (call (d.query_points client self.collection query_vector k))
      entities_of points

  module _ (settings : QdrantSettings) where
    -- The client is closed first, and leaves the cache if that returns.
    unfoldable pub close : Action (World C S) (Failure X) (Unit {0})
    close = do
      client ← gets (λ w. lookup (client_key settings) w.0)
      elim client [
        | none ↦ pure tt
        | some c ↦ (do call (d.close c); Objects.update (pop (client_key settings)))
      ]

    unfoldable pub health : Action (World C S) (Failure X) (PluginHealth X)
    unfolding probed
    health =
        probed (λ x. d.isinstance x builtin_exception)
          (do client ← get_qdrant_client d settings; call (d.get_collections client))

    unfoldable pub initialize : Action (World C S) (Failure X) (Unit {0})
    unfolding health checked
    initialize = do
      get_qdrant_client d settings
      checked (failure_of settings.adapter_name connection_error "initialize" none) health

    -- `shutdown` swallows what `close` raises.
    unfoldable pub shutdown : Action (World C S) (Failure X) (Unit {0})
    unfolding close
    shutdown = ignoring (λ x. d.isinstance x builtin_exception) close
