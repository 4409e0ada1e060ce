-- ===== src/Redis/RoundTrip.antt =====
-- Sequences of calls of the repository: what is created is read back until it is deleted, and the
-- other identifiers keep what they have.
use openframe_adapters.Prelude.{
  codes, ◌++◌, ℕ, ◌≡◌, ◌≢◌, Option, some, none, arith, false, Bool, Text, eq_text_refl,
}
use openframe_adapters.Effect.{ok}
use openframe_adapters.Dict.{lookup}
use openframe_adapters.Redis.Driver.{Driver, RedisSettings, Fields}
use openframe_adapters.Redis.Connection.{key_eq, World, cache_key}
use openframe_adapters.Redis.Keys.{Mapping, make_key, id_of, is_empty, ttl_of}
use openframe_adapters.Redis.Repository.{get, create, delete}
use openframe_adapters.Redis.KeySpace.{make_key_ne, make_key_nested, Nests}
use openframe_adapters.Redis.Store.{
  has, IsRedis, stored, create_inserts, delete_removes, get_misses, get_finds,
}

module _ {C S X T : Type 0} (d : Driver C S X) (m : Mapping T X) (settings : RedisSettings)
    (view : S → Text → Option Text) (laws : IsRedis d view) {c : C} (w : World C S)
    (cached : lookup (cache_key settings) w.client_cache ≡ some c) where
  -- With no TTL configured, a client in the cache and a server whose commands reply as Redis
  -- documents them of values that do not expire: where the hook and `json.dumps` make a text of an
  -- entity that has a non-empty identifier that is not stored, and `json.loads` and the other hook
  -- make an entity of that text (of an object, by the hooks of the base class, a dict), `create`
  -- returns the given entity, `get` of the identifier then returns the one made of the text, and
  -- what is stored for every other identifier stays.
  pub create_get :
      ttl_of settings ≡ none
      → (entity back : T) (f loaded : Fields) (t : Text) → m.entity_to_dict entity ≡ ok f
      → d.dumps f ≡ ok t
      → d.loads t ≡ ok loaded
      → m.dict_to_entity loaded ≡ ok back
      → is_empty (id_of f) ≡ false
      → stored d m settings view laws w (id_of f) ≡ none
      → {done : Bool} {s : S}
      → d.set_nx c (make_key settings (id_of f)) t (ttl_of settings) w.server ≡ (ok done, s)
      → {v : Option Text} {s' : S} → d.get c (make_key settings (id_of f)) s ≡ (ok v, s')
      → (create d m settings entity w ≡ (ok entity, record w { server = s }))
        × (get d m settings (id_of f) (record w { server = s })
            ≡ (ok (some back), record w { server = s' }))
        × ((j : Text)
            → id_of f ≢ j
            → view s (make_key settings j) ≡ stored d m settings view laws w j)
  create_get no_ttl entity back f loaded t mapped dumped loads read_back named fresh {done} {s}
        replied read =
      let (made, stores) =
        create_inserts d m settings view laws entity w f t no_ttl cached mapped dumped named
          replied in
      (
        ground (arith, made, fresh),
        get_finds d m settings view laws (id_of f) (record w { server = s }) cached loaded t back
            loads read_back
            (ground (
              arith,
              stores (make_key settings (id_of f)),
              fresh,
              eq_text_refl (make_key settings (id_of f)),
            ))
            read,
        λ j ne. ground (arith, stores (make_key settings j), make_key_ne settings (id_of f) j ne),
      )

  -- On a server that replies, with a client in the cache, `delete` says whether the identifier was
  -- stored, `get` then returns `None`, and what is stored for every other identifier stays.
  pub delete_get :
      (entity_id : Text) {n : ℕ} {s : S}
      → d.delete c (make_key settings entity_id) w.server ≡ (ok n, s)
      → {v : Option Text} {s' : S} → d.get c (make_key settings entity_id) s ≡ (ok v, s')
      → (delete d settings entity_id w
          ≡ (ok (has (stored d m settings view laws w entity_id)), record w { server = s }))
        × (get d m settings entity_id (record w { server = s })
            ≡ (ok none, record w { server = s' }))
        × ((j : Text)
            → entity_id ≢ j
            → view s (make_key settings j) ≡ stored d m settings view laws w j)
  delete_get entity_id {n} {s} replied read =
      let (gone, stores) = delete_removes d m settings view laws entity_id w cached replied in
      (
        gone,
        get_misses d m settings view laws entity_id (record w { server = s }) cached read
            (ground (
              arith,
              stores (make_key settings entity_id),
              eq_text_refl (make_key settings entity_id),
            )),
        λ j ne. ground (arith, stores (make_key settings j), make_key_ne settings entity_id j ne),
      )

  -- Two repositories share a server and a client that is in the cache of the first, and the prefix
  -- of the second is the first's, a colon and `rest`. Where the server replies as Redis documents
  -- it, `delete` of the first repository, of `rest`, a colon and an identifier, says whether the
  -- second has something stored for the identifier, and afterwards it has not.
  pub nested_delete :
      (rest : Text) (inner : RedisSettings) (i : Text)
      → Nests rest settings inner
      → {n : ℕ} {s : S}
      → d.delete c (make_key settings (rest ++ (codes ":" ++ i))) w.server ≡ (ok n, s)
      → (delete d settings (rest ++ (codes ":" ++ i)) w
          ≡ (ok (has (stored d m inner view laws w i)), record w { server = s }))
        × (view s (make_key inner i) ≡ none)
  nested_delete rest inner i nests {n} {s} replied =
      let (gone, stores) =
        delete_removes d m settings view laws (rest ++ (codes ":" ++ i)) w cached replied in
      rw (make_key_nested rest settings inner i nests) (
        gone,
        ground (
          arith,
          stores (make_key settings (rest ++ (codes ":" ++ i))),
          eq_text_refl (make_key settings (rest ++ (codes ":" ++ i))),
        ),
      )
