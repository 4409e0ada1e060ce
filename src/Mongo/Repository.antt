-- ===== src/Mongo/Repository.antt =====
-- repository.py of the MongoDB adapter: `MongoRepository` and its methods.
use openframe_adapters.Prelude.{
  ℕ, ◌==◌, Bool, true, false, ◌||◌, Option, none, some, List, [], ◌∷◌, Text, codes, if◌then◌else◌,
  String,
}
use openframe_adapters.Effect.{Outcome, ok, raised, Action, ◌>>=◌, ◌>>◌, pure, raise, gets}
use openframe_adapters.Effect.Errors.{
  Failure, failure_of, outside, type_error, connection_error, query_error, timeout_error,
  configuration_error, PluginHealth,
}
use openframe_adapters.Effect.Objects
use openframe_adapters.Effect.Objects.{call, hook, translate}
use openframe_adapters.Dict.{Dict, text_eq, lookup, insert, pop}
use openframe_adapters.Lifecycle.Checks.{probed, checked}
use openframe_adapters.Sql.{or_default}
use openframe_adapters.Mongo.Driver.{
  Driver, MongoSettings, Collection, asyncio_timeout, connection_failure, pymongo_error,
  builtin_exception,
}
use openframe_adapters.Mongo.Connection.{World, client_key, client_key_eq, get_mongo_client}
use openframe_adapters.Mongo.Documents.{Document, items_of, assign, normalise_id, serialise_doc}

-- The class of a repository: its `_collection` and the hooks `_doc_to_entity` and `_entity_to_doc`.
pub record RepositoryClass (J X T : Type 0) : Type 0 where
  pub class_collection : Text
  pub doc_to_entity : Dict Text J → Outcome X T
  pub entity_to_doc : T → Outcome X (Document J)

-- `_settings`, `_coll_name` and the class of the object
pub record Repo (J X T : Type 0) : Type 0 where
  pub settings : MongoSettings
  pub coll_name : Text
  pub class_of : RepositoryClass J X T

-- `__init__`; an argument that is not given is the empty text.
unfoldable pub new_repository :
    {J X T : Type 0}
    → MongoSettings
    → Text
    → RepositoryClass J X T
    → Outcome (Failure X) (Repo J X T)
new_repository settings collection cls = elim (or_default collection cls.class_collection) [
  | [] ↦ raised (failure_of settings.adapter_name configuration_error "init" none)
  | c ∷ cs ↦ ok (record { settings = settings; coll_name = c ∷ cs; class_of = cls })
]

-- `_max_time_ms`
unfoldable pub max_time_ms : MongoSettings → ℕ
max_time_ms settings = settings.operation_timeout

module _ {C J S X : Type 0} (d : Driver C J S X) where
  unfoldable pub wrap_pymongo : MongoSettings → X → String → Failure X
  wrap_pymongo settings exc op =
      if d.isinstance exc asyncio_timeout
      then failure_of settings.adapter_name timeout_error op (some exc)
      else if d.isinstance exc connection_failure
      then failure_of settings.adapter_name connection_error op (some exc)
      else failure_of settings.adapter_name query_error op (some exc)

  -- The `except` clause of the operations.
  unfoldable pub statement_error : MongoSettings → String → X → Failure X
  unfolding wrap_pymongo
  statement_error settings op exc =
      if d.isinstance exc asyncio_timeout
        || d.isinstance exc connection_failure
        || d.isinstance exc pymongo_error
      then wrap_pymongo settings exc op
      else outside exc

  module _ {T : Type 0} (self : Repo J X T) where
    -- The calls of `_doc_to_entity` on a serialised copy, and of `_entity_to_doc`.
    unfoldable pub entity_of : Dict Text J → Action (World C J S) (Failure X) T
    unfolding serialise_doc
    entity_of doc = hook (self.class_of.doc_to_entity (serialise_doc d doc))

    unfoldable pub doc_of : T → Action (World C J S) (Failure X) (Document J)
    doc_of entity = hook (self.class_of.entity_to_doc entity)

    abbrev pub found : Option (Dict Text J) → Action (World C J S) (Failure X) (Option T)
    found none = pure none
    found (some doc) = do e ← entity_of doc; pure (some e)

    -- A list comprehension over the documents.
    unfoldable pub entities_of : List (Dict Text J) → Action (World C J S) (Failure X) (List T)
    entities_of [] = pure []
    entities_of (doc ∷ docs) = do e ← entity_of doc; es ← entities_of docs; pure (e ∷ es)

    -- `_get_collection`
    unfoldable pub get_collection : Action (World C J S) (Failure X) (Collection C)
    get_collection = do
      client ← get_mongo_client d self.settings
      pure (record { client = client; database = self.settings.database; name = self.coll_name })

    unfoldable pub get : Text → Action (World C J S) (Failure X) (Option T)
    unfolding get_collection
    get entity_id = do
      col ← get_collection
      doc ←
          translate (statement_error self.settings "get")
            (call (d.find_one col (normalise_id d entity_id) (max_time_ms self.settings)))
      found doc

    -- Both queries of `list`.
    unfoldable pub page_and_total :
        Collection C → ℕ → ℕ → Action (World C J S) (Failure X) (List (Dict Text J) × ℕ)
    page_and_total col limit offset = do
      docs ← call (d.find_page col offset limit (max_time_ms self.settings))
      total ← call (d.count_documents col (max_time_ms self.settings))
      pure (docs, total)

    unfoldable pub list : ℕ → ℕ → Action (World C J S) (Failure X) (List T × ℕ)
    unfolding get_collection page_and_total entities_of
    list limit offset = do
      col ← get_collection
      (docs, total) ←
          translate (statement_error self.settings "list") (page_and_total col limit offset)
      entities ← entities_of docs
      pure (entities, total)

    -- `if "id" in doc and "_id" not in doc: doc["_id"] = self._normalise_id(str(doc.pop("id")))`
    unfoldable pub move_id : Document J → Action (World C J S) (Failure X) (Document J)
    unfolding items_of assign
    move_id doc = do
      fields ← items_of doc
      elim (lookup (codes "id") fields) [
        | none ↦ pure doc
        | some v ↦ elim (lookup (codes "_id") fields) [
          | none ↦
              assign doc (insert (codes "_id") (normalise_id d (d.str v)) (pop (codes "id") fields))
          | some w ↦ pure doc
        ]
      ]

    -- Insert the document and read it back.
    unfoldable pub insert_and_find :
        Collection C → Dict Text J → Action (World C J S) (Failure X) (Option (Dict Text J))
    insert_and_find col fields = do
      inserted_id ← call (d.insert_one col fields)
      call (d.find_one col inserted_id (max_time_ms self.settings))

    -- `dict(None)` is a TypeError.
    unfoldable pub create : T → Action (World C J S) (Failure X) T
    unfolding get_collection move_id insert_and_find
    create entity = do
      col ← get_collection
      given ← doc_of entity
      doc ← move_id given
      fields ← items_of doc
      inserted ← translate (statement_error self.settings "create") (insert_and_find col fields)
      elim inserted [ none ↦ raise type_error | some stored ↦ entity_of stored ]

    -- `doc.pop(key, None)`, with the document after it
    unfoldable pub pop_key :
        Text → Document J → Action (World C J S) (Failure X) (Option J × Document J)
    unfolding items_of assign
    pop_key key doc = do
      fields ← items_of doc
      elim (lookup key fields) [
        | none ↦ pure (none, doc)
        | some v ↦ (do left ← assign doc (pop key fields); pure (some v, left))
      ]

    abbrev pub is_true : Option J → Bool
    is_true none = false
    is_true (some v) = d.truthy v

    -- `doc.pop("_id", None) or doc.pop("id", None)`
    unfoldable pub pop_id : Document J → Action (World C J S) (Failure X) (Option J × Document J)
    unfolding pop_key
    pop_id doc = do
      (first, left) ← pop_key (codes "_id") doc
      if is_true first then pure (first, left) else pop_key (codes "id") left

    abbrev pub is_missing : Option J → Bool
    is_missing none = true
    is_missing (some v) = d.is_none v

    abbrev pub id_text : Option J → Text
    id_text none = []
    id_text (some v) = d.str v

    unfoldable pub update : T → Action (World C J S) (Failure X) (Option T)
    unfolding get_collection pop_id
    update entity = do
      col ← get_collection
      given ← doc_of entity
      (entity_id, doc) ← pop_id given
      if is_missing entity_id
          then raise (failure_of self.settings.adapter_name query_error "update" none)
          else (do
            fields ← items_of doc
            result ← translate (statement_error self.settings "update") (
                call (
                  d.find_one_and_update col (normalise_id d (id_text entity_id)) fields
                    (max_time_ms self.settings)))
            found result)

    unfoldable pub delete : Text → Action (World C J S) (Failure X) Bool
    unfolding get_collection
    delete entity_id = do
      col ← get_collection
      deleted ←
          translate (statement_error self.settings "delete")
            (call (d.delete_one col (normalise_id d entity_id)))
      pure (deleted == 1)

  module _ (settings : MongoSettings) where
    -- The client leaves the cache before it is closed.
    unfoldable pub close : Action (World C J S) (Failure X) (Unit {0})
    close = do
      client ← gets (λ w. lookup (client_key settings) w.0.client_cache)
      Objects.update (λ p. record p { client_cache = pop (client_key settings) p.client_cache })
      elim client [ none ↦ pure tt | some c ↦ call (d.close c) ]

    unfoldable pub health : Action (World C J S) (Failure X) (PluginHealth X)
    unfolding probed
    health =
        probed (λ x. d.isinstance x builtin_exception)
          (do client ← get_mongo_client d settings; call (d.ping client))

    unfoldable pub initialize : Action (World C J S) (Failure X) (Unit {0})
    unfolding health checked
    initialize = do
      get_mongo_client d settings
      checked (failure_of settings.adapter_name connection_error "initialize" none) health

    unfoldable pub shutdown : Action (World C J S) (Failure X) (Unit {0})
    shutdown = close
