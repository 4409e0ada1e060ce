-- ===== src/Chroma/Repository.antt =====
-- repository.py of the ChromaDB adapter: `ChromaDBRepository` and its methods.
use openframe_adapters.Prelude.{
  ℕ, Bool, true, false, ◌||◌, Option, none, some, List, [], ◌∷◌, Text, if◌then◌else◌, String,
}
use openframe_adapters.Effect.{Outcome, ok, raised, Action, ◌>>=◌, ◌>>◌, pure, raise}
use openframe_adapters.Effect.Errors.{
  Failure, failure_of, outside, connection_error, query_error, timeout_error, configuration_error,
  PluginHealth,
}
use openframe_adapters.Effect.Objects
use openframe_adapters.Effect.Objects.{call, hook, translate}
use openframe_adapters.Dict.{Dict}
use openframe_adapters.Lifecycle.Checks.{probed, checked}
use openframe_adapters.Sql.{or_default}
use openframe_adapters.Chroma.Driver.{
  Driver, ChromadbSettings, asyncio_timeout, httpx_timeout, httpx_transport, chroma_error,
  value_error, builtin_exception,
}
use openframe_adapters.Chroma.Connection.{World, get_chromadb_client}
use openframe_adapters.Chroma.Rows.{Row, get_result_to_rows, query_result_to_rows}

-- The dict of an entity, as far as it is read: `none` is a missing key, and for the metadata and the
-- document `None` as well; the vector may be there and be `None`.
pub record EntityRow (J : Type 0) : Type 0 where
  pub id : Option J
  pub vector : Option (Option J)
  pub metadata : Option (Dict Text J)
  pub document : Option J

-- The class of a repository: its `_collection` and the hooks `_row_to_entity` and `_entity_to_row`.
pub record RepositoryClass (J X T : Type 0) : Type 0 where
  pub class_collection : Text
  pub row_to_entity : Row J → Outcome X T
  pub entity_to_row : T → Outcome X (EntityRow J)

-- `_settings`, `_collection_name` and the class of the object
pub record Repo (J X T : Type 0) : Type 0 where
  pub settings : ChromadbSettings
  pub collection_name : Text
  pub class_of : RepositoryClass J X T

-- `__init__`; an argument that is not given is the empty text.
unfoldable pub new_repository :
    {J X T : Type 0}
    → ChromadbSettings
    → Text
    → RepositoryClass J X T
    → Outcome (Failure X) (Repo J X T)
new_repository settings collection cls =
    elim (or_default (or_default collection cls.class_collection) settings.collection) [
      | [] ↦ raised (failure_of settings.adapter_name configuration_error "init" none)
      | c ∷ cs ↦ ok (record { settings = settings; collection_name = c ∷ cs; class_of = cls })
    ]

-- `metadata or None`
abbrev pub or_none : {J : Type 0} → Option (Dict Text J) → Option (Dict Text J)
or_none none = none
or_none (some []) = none
or_none (some (m ∷ ms)) = some (m ∷ ms)

module _ {C N J S X : Type 0} (d : Driver C N J S X) where
  unfoldable pub wrap_chromadb : ChromadbSettings → X → String → Failure X
  wrap_chromadb settings exc op =
      if d.isinstance exc httpx_timeout
      then failure_of settings.adapter_name timeout_error op (some exc)
      else if d.isinstance exc httpx_transport
      then failure_of settings.adapter_name connection_error op (some exc)
      else failure_of settings.adapter_name query_error op (some exc)

  -- The `except` clauses of the operations, in order.
  unfoldable pub statement_error : ChromadbSettings → String → X → Failure X
  unfolding wrap_chromadb
  statement_error settings op exc =
      if d.isinstance exc asyncio_timeout
      then failure_of settings.adapter_name timeout_error op (some exc)
      else if d.isinstance exc httpx_timeout
          || d.isinstance exc httpx_transport
          || d.isinstance exc chroma_error
      then wrap_chromadb settings exc op
      else outside exc

  -- Those of `create`, with one more clause.
  unfoldable pub create_error : ChromadbSettings → X → Failure X
  unfolding statement_error
  create_error settings exc = elim (statement_error settings "create" exc) [
    | outside x ↦
        if d.isinstance x value_error
        then failure_of settings.adapter_name query_error "create" (some x)
        else outside x
    | other ↦ other
  ]

  -- `row[key]`
  unfoldable pub item : {A : Type 0} → Option A → Action (World C N S) (Failure X) A
  item none = raise (outside d.key_error)
  item (some a) = pure a

  module _ {T : Type 0} (self : Repo J X T) where
    -- The calls of `_row_to_entity` and `_entity_to_row`.
    unfoldable pub entity_of : Row J → Action (World C N S) (Failure X) T
    entity_of row = hook (self.class_of.row_to_entity row)

    unfoldable pub row_of : T → Action (World C N S) (Failure X) (EntityRow J)
    row_of entity = hook (self.class_of.entity_to_row entity)

    -- `[self._row_to_entity(r) for r in rows]`
    unfoldable pub entities_of : List (Row J) → Action (World C N S) (Failure X) (List T)
    entities_of [] = pure []
    entities_of (r ∷ rs) = do e ← entity_of r; es ← entities_of rs; pure (e ∷ es)

    -- `_get_collection`
    unfoldable pub get_collection : Action (World C N S) (Failure X) N
    unfolding statement_error
    get_collection w = elim w.0.collection_cache [
      | some collection ↦ (ok collection, w)
      | none ↦
          (do
            client ← get_chromadb_client d self.settings
            collection ←
                translate (statement_error self.settings "get_or_create_collection")
                  (call (d.get_or_create_collection client self.collection_name))
            Objects.update (λ p. record p { collection_cache = some collection })
            pure collection)
            w
    ]

    unfoldable pub get : J → Action (World C N S) (Failure X) (Option T)
    unfolding statement_error get_collection get_result_to_rows
    get entity_id = do
      collection ← get_collection
      result ←
          translate (statement_error self.settings "get") (call (d.get collection (entity_id ∷ [])))
      rows ← hook (get_result_to_rows d.index_error result)
      elim rows [ [] ↦ pure none | r ∷ rs ↦ (do e ← entity_of r; pure (some e)) ]

    unfoldable pub list : ℕ → ℕ → Action (World C N S) (Failure X) (List T × ℕ)
    unfolding statement_error get_collection get_result_to_rows entities_of
    list limit offset = do
      collection ← get_collection
      (result, total) ← translate (statement_error self.settings "list") (do
        page ← call (d.get_page collection limit offset)
        n ← call (d.count collection)
        pure (page, n))
      rows ← hook (get_result_to_rows d.index_error result)
      entities ← entities_of rows
      pure (entities, total)

    unfoldable pub create : T → Action (World C N S) (Failure X) T
    unfolding get_collection create_error item
    create entity = do
      collection ← get_collection
      row ← row_of entity
      translate (create_error self.settings) (do
        entity_id ← item row.id
        vector ← item row.vector
        call (
            d.add collection entity_id (record {
              embedding = vector;
              metadata = or_none row.metadata;
              document = row.document;
            })))
      pure entity

    -- The identifiers among the given that are there; `existing.get("ids")` may be missing or empty.
    abbrev pub is_there : Option (List J) → Bool
    is_there none = false
    is_there (some []) = false
    is_there (some (i ∷ is)) = true

    abbrev pub vector_or_none : Option (Option J) → Option J
    vector_or_none none = none
    vector_or_none (some vector) = vector

    unfoldable pub update : T → Action (World C N S) (Failure X) (Option T)
    unfolding statement_error get_collection item
    update entity = do
      collection ← get_collection
      row ← row_of entity
      entity_id ← item row.id
      translate (statement_error self.settings "update") (do
        existing ← call (d.get_ids collection (entity_id ∷ []))
        if is_there existing
            then (do
              call (
                  d.update collection entity_id (record {
                    embedding = vector_or_none row.vector;
                    metadata = or_none row.metadata;
                    document = row.document;
                  }))
              pure (some entity))
            else pure none)

    unfoldable pub delete : J → Action (World C N S) (Failure X) Bool
    unfolding statement_error get_collection
    delete entity_id = do
      collection ← get_collection
      translate (statement_error self.settings "delete") (do
        existing ← call (d.get_ids collection (entity_id ∷ []))
        if is_there existing
            then (do call (d.delete collection (entity_id ∷ [])); pure true)
            else pure false)

    unfoldable pub search : J → ℕ → Action (World C N S) (Failure X) (List T)
    unfolding statement_error get_collection query_result_to_rows entities_of
    search query_vector k = do
      collection ← get_collection
      result ←
          translate (statement_error self.settings "search")
            (call (d.query collection query_vector k))
      rows ← hook (query_result_to_rows d.index_error result)
      entities_of rows

    unfoldable pub close : Action (World C N S) (Failure X) (Unit {0})
    close = Objects.update (λ p. record p { collection_cache = none })

    unfoldable pub health : Action (World C N S) (Failure X) (PluginHealth X)
    unfolding probed get_collection
    health =
        probed (λ x. d.isinstance x builtin_exception)
          (do collection ← get_collection; call (d.count collection); pure tt)

    unfoldable pub initialize : Action (World C N S) (Failure X) (Unit {0})
    unfolding health checked get_collection
    initialize = do
      get_collection
      checked (failure_of self.settings.adapter_name connection_error "initialize" none) health

    unfoldable pub shutdown : Action (World C N S) (Failure X) (Unit {0})
    shutdown = close
