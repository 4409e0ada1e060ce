-- ===== src/Milvus/Repository.antt =====
-- repository.py of the Milvus adapter: `MilvusRepository` and its methods.
use openframe_adapters.Prelude.{
  ℕ, Bool, true, false, Option, none, some, List, [], ◌∷◌, Text, map, length,
}
use openframe_adapters.Effect.{Outcome, ok, raised, Action, ◌>>=◌, ◌>>◌, pure, gets}
use openframe_adapters.Effect.Errors.{
  Failure, failure_of, connection_error, configuration_error, PluginHealth,
}
use openframe_adapters.Effect.Objects
use openframe_adapters.Effect.Objects.{call, hook, translate, ignoring}
use openframe_adapters.Dict.{Dict, text_eq, lookup, pop}
use openframe_adapters.Lifecycle.Checks.{probed, checked}
use openframe_adapters.Sql.{or_default}
use openframe_adapters.Milvus.Driver.{Driver, MilvusSettings, Hit, builtin_exception}
use openframe_adapters.Milvus.Connection.{World, client_key, client_key_eq, get_milvus_client}
use openframe_adapters.Milvus.Errors.{statement_error}

-- The class of a repository: its attributes, and the hooks `_row_to_entity` and `_entity_to_row`.
pub record RepositoryClass (J X T : Type 0) : Type 0 where
  pub class_collection_name : Text
  pub class_id_field : Text
  pub class_vector_field : Text
  pub row_to_entity : Dict Text J → Outcome X T
  pub entity_to_row : T → Outcome X (Dict Text J)

-- `_settings`, `_collection_name`, `_id_field`, `_vector_field` and the class of the object
pub record Repo (J X T : Type 0) : Type 0 where
  pub settings : MilvusSettings
  pub collection_name : Text
  pub id_field : Text
  pub vector_field : Text
  pub class_of : RepositoryClass J X T

-- `__init__`; an argument that is not given is the empty text.
unfoldable pub new_repository :
    {J X T : Type 0}
    → MilvusSettings
    → Text
    → Text
    → Text
    → RepositoryClass J X T
    → Outcome (Failure X) (Repo J X T)
new_repository settings collection_name id_field vector_field cls =
    elim (or_default collection_name cls.class_collection_name) [
      | [] ↦ raised (failure_of settings.adapter_name configuration_error "init" none)
      | c ∷ cs ↦ ok (record {
        settings = settings;
        collection_name = c ∷ cs;
        id_field = or_default id_field cls.class_id_field;
        vector_field = or_default vector_field cls.class_vector_field;
        class_of = cls;
      })
    ]

-- `results[0]` where there are results, each hit's `entity` or the hit itself
unfoldable pub hit_rows : {J : Type 0} → List (List (Hit J)) → List (Dict Text J)
hit_rows [] = []
hit_rows (hits ∷ _) = map (λ hit. elim hit.entity [ none ↦ hit.fields | some row ↦ row ]) hits

module _ {C J S X : Type 0} (d : Driver C J S X) where
  module _ {T : Type 0} (self : Repo J X T) where
    -- The calls of `_row_to_entity` and `_entity_to_row`.
    unfoldable pub entity_of : Dict Text J → Action (World C S) (Failure X) T
    entity_of row = hook (self.class_of.row_to_entity row)

    unfoldable pub row_of : T → Action (World C S) (Failure X) (Dict Text J)
    row_of entity = hook (self.class_of.entity_to_row entity)

    -- `[self._row_to_entity(r) for r in rows]`
    unfoldable pub entities_of : List (Dict Text J) → Action (World C S) (Failure X) (List T)
    entities_of [] = pure []
    entities_of (r ∷ rs) = do e ← entity_of r; es ← entities_of rs; pure (e ∷ es)

    unfoldable pub get : Option J → Action (World C S) (Failure X) (Option T)
    get entity_id = do
      client ← get_milvus_client d self.settings
      rows ←
          translate (statement_error d self.settings "get")
            (call (d.get client self.collection_name (entity_id ∷ [])))
      elim rows [ [] ↦ pure none | r ∷ rs ↦ (do e ← entity_of r; pure (some e)) ]

    -- Both queries of `list`.
    unfoldable pub page_and_all :
        C → ℕ → ℕ → Action (World C S) (Failure X) (List (Dict Text J) × List (Dict Text J))
    page_and_all client limit offset = do
      rows ← call (d.query_page client self.collection_name limit offset)
      all_rows ← call (d.query_all client self.collection_name)
      pure (rows, all_rows)

    unfoldable pub list : ℕ → ℕ → Action (World C S) (Failure X) (List T × ℕ)
    unfolding page_and_all entities_of
    list limit offset = do
      client ← get_milvus_client d self.settings
      (rows, all_rows) ←
          translate (statement_error d self.settings "list") (page_and_all client limit offset)
      entities ← entities_of rows
      pure (entities, length all_rows)

    unfoldable pub create : T → Action (World C S) (Failure X) T
    create entity = do
      client ← get_milvus_client d self.settings
      row ← row_of entity
      translate (statement_error d self.settings "create")
          (call (d.upsert client self.collection_name (row ∷ [])))
      pure entity

    unfoldable pub update : T → Action (World C S) (Failure X) (Option T)
    unfolding get
    update entity = do
      row ← row_of entity
      stored ← get (lookup self.id_field row)
      elim stored [
        | none ↦ pure none
        | some e ↦ (do
          client ← get_milvus_client d self.settings
          translate (statement_error d self.settings "update")
              (call (d.upsert client self.collection_name (row ∷ [])))
          pure (some entity))
      ]

    unfoldable pub delete : J → Action (World C S) (Failure X) Bool
    unfolding get
    delete entity_id = do
      stored ← get (some entity_id)
      elim stored [
        | none ↦ pure false
        | some e ↦ (do
          client ← get_milvus_client d self.settings
          translate (statement_error d self.settings "delete")
              (call (d.delete client self.collection_name (some entity_id ∷ [])))
          pure true)
      ]

    unfoldable pub search : J → ℕ → Action (World C S) (Failure X) (List T)
    unfolding entities_of
    search query_vector k = do
      client ← get_milvus_client d self.settings
      results ←
          translate (statement_error d self.settings "search")
            (call (d.search client self.collection_name (query_vector ∷ []) k))
      entities_of (hit_rows results)

  module _ (settings : MilvusSettings) where
    abbrev pub close_client :
        Option (Action S X (Unit {0})) → Action (World C S) (Failure X) (Unit {0})
    close_client none = pure tt
    close_client (some closing) = call closing

    -- The client is closed first, and leaves the cache if that returns.
    unfoldable pub close : Action (World C S) (Failure X) (Unit {0})
    close = do
      client ← gets (λ w. lookup (client_key settings) w.0)
      elim client [
        | none ↦ pure tt
        | some c ↦ (do close_client (d.close c); Objects.update (pop (client_key settings)))
      ]

    unfoldable pub health : Action (World C S) (Failure X) (PluginHealth X)
    unfolding probed
    health =
        probed (λ x. d.isinstance x builtin_exception)
          (do client ← get_milvus_client d settings; call (d.list_collections client))

    unfoldable pub initialize : Action (World C S) (Failure X) (Unit {0})
    unfolding health checked
    initialize = do
      get_milvus_client d settings
      checked (failure_of settings.adapter_name connection_error "initialize" none) health

    -- `shutdown` swallows what `close` raises.
    unfoldable pub shutdown : Action (World C S) (Failure X) (Unit {0})
    unfolding close
    shutdown = ignoring (λ x. d.isinstance x builtin_exception) close
