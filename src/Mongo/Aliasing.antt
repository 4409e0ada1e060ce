-- ===== src/Mongo/Aliasing.antt =====
-- `update` of the MongoDB repository on an entity that is an object: the identifier is taken out of the
-- attributes of the object itself.
use openframe_adapters.Prelude.{ℕ, ◌≡◌, false, Option, none, some, Text, codes, arith, inl, inr}
use openframe_adapters.Effect.{Outcome, ok, raised, ran-cases}
use openframe_adapters.Effect.Errors.{failure_of, query_error}
use openframe_adapters.Dict.{
  Dict, text_eq, lookup, insert, pop, lookup-insert_self, lookup-pop_self, lookup-pop,
}
use openframe_adapters.Dict.Keys.{nat_eq}
use openframe_adapters.Mongo.Driver.{Driver}
use openframe_adapters.Mongo.Connection.{
  Process, World, client_key, client_key_eq, get_mongo_client,
}
use openframe_adapters.Mongo.Documents.{attributes_of, items_of, assign, normalise_id}
use openframe_adapters.Mongo.Repository.{
  Repo, get_collection, doc_of, pop_key, pop_id, max_time_ms, update, entity_of,
}

-- An object with neither `_id` nor `id` is refused, and nothing is written.
nameless_refused :
    {C J S X T : Type 0} (d : Driver C J S X) (self : Repo J X T) (w : World C J S) (entity : T)
    {address : ℕ} {client : C} {fields : Dict Text J}
    → lookup (client_key self.settings) w.0.client_cache ≡ some client
    → self.class_of.entity_to_doc entity ≡ ok (attributes_of address)
    → lookup ⦃e = nat_eq⦄ address w.0.objects ≡ some fields
    → lookup (codes "_id") fields ≡ none
    → lookup (codes "id") fields ≡ none
    → update d self entity w
      ≡ (raised (failure_of self.settings.adapter_name query_error "update" none), w)
unfolding update get_collection get_mongo_client doc_of items_of pop_id pop_key
nameless_refused d self w entity cached shared attributes no_underscore no_id =
    ground (arith, cached, shared, attributes, no_underscore, no_id)

module _ {C J S X T : Type 0} (d : Driver C J S X) (self : Repo J X T) (w : World C J S) where
  module _ (entity : T) {address : ℕ} {client : C} {fields : Dict Text J} {v : J}
      (cached : lookup (client_key self.settings) w.0.client_cache ≡ some client)
      (shared : self.class_of.entity_to_doc entity ≡ ok (attributes_of address))
      (attributes : lookup ⦃e = nat_eq⦄ address w.0.objects ≡ some fields)
      (no_underscore : lookup (codes "_id") fields ≡ none)
      (named : lookup (codes "id") fields ≡ some v) (not_none : d.is_none v ≡ false) where
    -- The process once the identifier is taken out.
    abbrev pub stripped : Process C J
    stripped = record w.0 {
      objects = insert ⦃e = nat_eq⦄ address (pop (codes "id") fields) w.0.objects;
    }

    -- How the document is sought, and what it is set to.
    abbrev sought : Outcome X (Option (Dict Text J)) × S
    sought =
        d.find_one_and_update
          (record { client = client; database = self.settings.database; name = self.coll_name })
          (normalise_id d (d.str v)) (pop (codes "id") fields) (max_time_ms self.settings) w.1

    pops_id :
        pop_id d self (attributes_of address) w
        ≡ (ok (some v, attributes_of address), (stripped, w.1))
    unfolding pop_id pop_key items_of assign
    pops_id = ground (arith, attributes, no_underscore, named)

    update_writes : (update d self entity w).1.0 ≡ stripped
    unfolding update get_collection get_mongo_client doc_of items_of entity_of
    update_writes = elim (ran-cases sought) [
      | inr (x, p) ↦ ground (arith, cached, shared, pops_id, not_none, p, read_back)
      | inl (none, p) ↦ ground (arith, cached, shared, pops_id, not_none, p, read_back)
      | inl (some doc, p) ↦ ground (arith, cached, shared, pops_id, not_none, p, read_back)
    ]
      where
        read_back : lookup ⦃e = nat_eq⦄ address stripped.objects ≡ some (pop (codes "id") fields)
        read_back = lookup-insert_self ⦃e = nat_eq⦄ address _ w.0.objects

    -- With a MongoDB client in the cache and an entity whose document is the attributes of an
    -- object, with an `id` that is not None and no `_id`: after `update`, whatever comes of it,
    -- the attributes of the object have lost their `id`, and a second `update` raises a query
    -- error without touching anything.
    pub second_update_refused :
        (lookup ⦃e = nat_eq⦄ address (update d self entity w).1.0.objects
          ≡ some (pop (codes "id") fields))
        × (update d self entity (update d self entity w).1 ≡ (
          raised (failure_of self.settings.adapter_name query_error "update" none),
          (update d self entity w).1,
        ))
    second_update_refused = (
      taken_out,
      nameless_refused d self (update d self entity w).1 entity still_cached shared taken_out
          (rw (lookup-pop (codes "id") (codes "_id") fields) no_underscore)
          (lookup-pop_self (codes "id") fields),
    )
      where
        taken_out :
            lookup ⦃e = nat_eq⦄ address (update d self entity w).1.0.objects
            ≡ some (pop (codes "id") fields)
        taken_out = rw update_writes (lookup-insert_self ⦃e = nat_eq⦄ address _ w.0.objects)

        still_cached :
            lookup (client_key self.settings) (update d self entity w).1.0.client_cache
            ≡ some client
        still_cached = rw update_writes cached
