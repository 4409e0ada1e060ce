-- ===== src/Qdrant/Listing.antt =====
-- `list`, `update` and `delete` of the Qdrant store against a collection that holds points.
use openframe_adapters.Prelude.{
  ◌∙◌, ap, ℕ, ◌+◌, ◌≡◌, false, none, some, List, [], ◌∷◌, take, drop, drop-take, length, arith,
}
use openframe_adapters.Effect.{ok, ◌>>=◌, pure}
use openframe_adapters.Dict.{lookup}
use openframe_adapters.Qdrant.Driver.{Driver, Point}
use openframe_adapters.Qdrant.Connection.{World, client_key, client_key_eq, get_qdrant_client}
use openframe_adapters.Qdrant.Repository.{
  Store, scroll_and_count, entities_of, list, update, delete, get,
}

module _ {C J S X T : Type 0} (d : Driver C J S X) (self : Store J X T) (w : World C S) where
  -- The server scrolls over the points in order, from the first, up to a limit, and counts them all.
  abbrev pub Holds : C → ℕ → List (Point J) → Type 0
  Holds client n points =
      (d.scroll client self.collection n w.1 ≡ (ok (take n points), w.1))
      × (d.count client self.collection w.1 ≡ (ok (length points), w.1))

  -- With a Qdrant client in the cache and a collection that scrolls, with the limit `limit +
  -- offset`, over its points in order from the first, and counts them all, `list` does what taking
  -- `limit` points from the offset `offset`, converting them and counting all points does.
  pub list_slice :
      {client : C} (points : List (Point J))
      → lookup (client_key self.settings) w.0 ≡ some client
      → (limit offset : ℕ) → Holds client (limit + offset) points
      → list d self limit offset w
        ≡ (do
          entities ← entities_of d self (take limit (drop offset points))
          pure (entities, length points))
            w
  unfolding list get_qdrant_client scroll_and_count
  list_slice points cached limit offset holds = ground (arith, cached, holds.0, holds.1, reordered)
    where
      reordered : drop offset (take (limit + offset) points) ≡ take limit (drop offset points)
      reordered =
          ap (λ n. drop offset (take n points)) (omega arith) ∙ drop-take offset limit points

  -- With a Qdrant client in the cache, where the collection retrieves no point for an identifier:
  -- `update` of an entity of this identifier returns `None`, `delete` of it returns `False`, and
  -- neither changes anything.
  pub missing_untouched :
      {client : C}
      → lookup (client_key self.settings) w.0 ≡ some client
      → (entity : T) (entity_id : J) → self.class_of.id_of entity ≡ some entity_id
      → d.retrieve client self.collection (entity_id ∷ []) w.1 ≡ (ok [], w.1)
      → (update d self entity w ≡ (ok none, w)) × (delete d self entity_id w ≡ (ok false, w))
  unfolding update delete get get_qdrant_client
  missing_untouched cached entity entity_id named absent = ground (arith, cached, named, absent)
