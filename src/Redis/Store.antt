-- ===== src/Redis/Store.antt =====
-- The repository against the keys that the server holds: with redis-py behaving as documented, the
-- methods are those of a map from identifiers to entities.
use openframe_adapters.Prelude.{
  ◌∙◌, sym, ap, ℕ, ◌≡◌, Option, some, none, arith, true, false, Bool, not, Text, eq_text,
  if◌then◌else◌, ◌&&◌,
}
use openframe_adapters.Effect.{ok, raised}
use openframe_adapters.Effect.Errors.{query_error}
use openframe_adapters.Dict.{lookup}
use openframe_adapters.Redis.Driver.{Driver, RedisSettings, Fields}
use openframe_adapters.Redis.Connection.{key_eq, World, cache_key}
use openframe_adapters.Redis.Keys.{Mapping, make_key, id_of, is_empty, ttl_of}
use openframe_adapters.Redis.Repository.{get, create, update, delete, decode, failure}
use openframe_adapters.Redis.Cache.{get_redis_client_hit}

abbrev pub has : Option Text → Bool
has none = false
has (some v) = true

-- What the documentation of Redis says of a command that replies, by the keys and values of the
-- server before and after it. Of `SET` it is what holds of a value without a TTL: nothing expires.
pub record IsRedis {C S X : Type 0} (d : Driver C S X) (view : S → Text → Option Text)
    : Type 0 where
  pub get_reads :
      (c : C) (k : Text) (s : S) (v : Option Text) (s' : S)
      → d.get c k s ≡ (ok v, s')
      → (v ≡ view s k) × ((j : Text) → view s' j ≡ view s j)
  pub set_nx_sets :
      (c : C) (k v : Text) (s : S) (done : Bool) (s' : S)
      → d.set_nx c k v none s ≡ (ok done, s')
      → (done ≡ not (has (view s k)))
        × ((j : Text) → view s' j ≡ (if done && eq_text k j then some v else view s j))
  pub set_xx_sets :
      (c : C) (k v : Text) (s : S) (done : Bool) (s' : S)
      → d.set_xx c k v none s ≡ (ok done, s')
      → (done ≡ has (view s k))
        × ((j : Text) → view s' j ≡ (if done && eq_text k j then some v else view s j))
  pub delete_deletes :
      (c : C) (k : Text) (s : S) (n : ℕ) (s' : S)
      → d.delete c k s ≡ (ok n, s')
      → (n ≡ (if has (view s k) then 1 else 0))
        × ((j : Text) → view s' j ≡ (if eq_text k j then none else view s j))

module _ {C S X T : Type 0} (d : Driver C S X) (m : Mapping T X) (settings : RedisSettings)
    (view : S → Text → Option Text) (laws : IsRedis d view) where
  -- The text that the server holds for an identifier.
  abbrev pub stored : World C S → Text → Option Text
  stored w entity_id = view w.server (make_key settings entity_id)

  -- The keys went from those of `w` to those of `s`: `o` is stored for the identifier `i` if `b`.
  abbrev pub Stores : Bool → Text → Option Text → World C S → S → Type 0
  Stores b i o w s =
      (j : Text) → view s j ≡ (if b && eq_text (make_key settings i) j then o else view w.server j)

  module _ (entity : T) {c : C} (w : World C S) (f : Fields) (t : Text)
      (no_ttl : ttl_of settings ≡ none)
      (cached : lookup (cache_key settings) w.client_cache ≡ some c)
      (mapped : m.entity_to_dict entity ≡ ok f) (dumped : d.dumps f ≡ ok t) where
    -- With no TTL, a client in the cache, a non-empty identifier and a server that replies, `create`
    -- returns the entity and stores its text if the identifier was not stored; if it was, it
    -- raises a query error and every stored text stays.
    pub create_inserts :
        {done : Bool} {s : S}
        → is_empty (id_of f) ≡ false
        → d.set_nx c (make_key settings (id_of f)) t (ttl_of settings) w.server ≡ (ok done, s)
        → (create d m settings entity w ≡ (
          (if has (stored w (id_of f))
              then raised (failure d settings query_error "create" none)
              else ok entity),
          record w { server = s },
        ))
          × Stores (not (has (stored w (id_of f)))) (id_of f) (some t) w s
    unfolding create
    create_inserts {done} {s} named replied =
        let (now, after) = laws.set_nx_sets c (make_key settings (id_of f)) t w.server done s (
          ap (λ ttl. d.set_nx c (make_key settings (id_of f)) t ttl w.server) (sym no_ttl)
          ∙ replied) in
        (
          ground (arith, get_redis_client_hit d settings w cached, now),
          λ j. ground (arith, now, after j),
        )

    -- With no TTL, a client in the cache and a server that replies, `update` returns the entity if its
    -- identifier was stored and `None` if not; only in the first case does the text change, and
    -- then for that identifier alone.
    pub update_overwrites :
        {done : Bool} {s : S}
        → d.set_xx c (make_key settings (id_of f)) t (ttl_of settings) w.server ≡ (ok done, s)
        → (update d m settings entity w ≡ (
          ok (if has (stored w (id_of f)) then some entity else none),
          record w { server = s },
        ))
          × Stores (has (stored w (id_of f))) (id_of f) (some t) w s
    unfolding update
    update_overwrites {done} {s} replied =
        let (now, after) = laws.set_xx_sets c (make_key settings (id_of f)) t w.server done s (
          ap (λ ttl. d.set_xx c (make_key settings (id_of f)) t ttl w.server) (sym no_ttl)
          ∙ replied) in
        (
          ground (arith, get_redis_client_hit d settings w cached, now),
          λ j. ground (arith, now, after j),
        )

  module _ (entity_id : Text) {c : C} (w : World C S)
      (cached : lookup (cache_key settings) w.client_cache ≡ some c) where
    -- A server that replies: `delete` says whether the identifier was stored, and nothing is stored
    -- for it afterwards.
    pub delete_removes :
        {n : ℕ} {s : S}
        → d.delete c (make_key settings entity_id) w.server ≡ (ok n, s)
        → (delete d settings entity_id w ≡ (ok (has (stored w entity_id)), record w { server = s }))
          × Stores true entity_id none w s
    unfolding delete
    delete_removes {n} {s} replied =
        let (now, after) = laws.delete_deletes c _ _ n s replied in
        (
          ground (arith, get_redis_client_hit d settings w cached, now),
          λ j. ground (arith, after j),
        )

    pub get_misses :
        {v : Option Text} {s : S}
        → d.get c (make_key settings entity_id) w.server ≡ (ok v, s)
        → stored w entity_id ≡ none
        → get d m settings entity_id w ≡ (ok none, record w { server = s })
    unfolding get
    get_misses {v} {s} replied absent =
        let (now, after) = laws.get_reads c _ _ v s replied in
        ground (arith, get_redis_client_hit d settings w cached, now)

    -- Where a text is stored for an identifier, `get` of it returns what the hook makes of the dict
    -- that the text holds.
    pub get_finds :
        (f : Fields) (t : Text) (entity : T)
        → d.loads t ≡ ok f
        → m.dict_to_entity f ≡ ok entity
        → stored w entity_id ≡ some t
        → {v : Option Text} {s : S} → d.get c (make_key settings entity_id) w.server ≡ (ok v, s)
        → get d m settings entity_id w ≡ (ok (some entity), record w { server = s })
    unfolding get decode
    get_finds f t entity loaded read present {v} {s} replied =
        let (now, after) = laws.get_reads c _ _ v s replied in
        ground (arith, get_redis_client_hit d settings w cached, now)
