-- ===== src/Redis/Translation.antt =====
-- Which exceptions leave the methods of `RedisRepository`, and how they are classified.
use openframe_adapters.Prelude.{
  ℕ, ◌≡◌, some, none, Option, arith, false, Text, String, List, [], ◌∷◌, inl, inr,
}
use openframe_adapters.Effect.{raised, bind-raised, Action, pure, ◌>>=◌}
use openframe_adapters.Effect.Errors.{
  Failure, adapter_error, outside, runtime_error, type_error, unbound_local_error, attribute_error,
}
use openframe_adapters.Dict.{lookup}
use openframe_adapters.Redis.Driver.{Fields, Driver, RedisSettings}
use openframe_adapters.Redis.Connection.{translate, key_eq, World, cache_key, get_redis_client}
use openframe_adapters.Redis.Keys.{Mapping}
use openframe_adapters.Redis.Repository.{
  is_caught, wrap_redis, get, list, create, update, delete, decode, decode_all, page, reraise,
  reraise,
}
use openframe_adapters.Redis.Cache.{get_redis_client_hit}

-- Documented: json and the entity hooks raise no exception of the driver's or asyncio's classes.
pub record HooksPass {C S X T : Type 0} (d : Driver C S X) (m : Mapping T X) : Type 0 where
  pub loads_passes : (t : Text) (x : X) → d.loads t ≡ raised x → is_caught d x ≡ false
  pub dumps_passes : (f : Fields) (x : X) → d.dumps f ≡ raised x → is_caught d x ≡ false
  pub to_passes : (t : T) (x : X) → m.entity_to_dict t ≡ raised x → is_caught d x ≡ false
  pub from_passes : (f : Fields) (x : X) → m.dict_to_entity f ≡ raised x → is_caught d x ≡ false

-- What an exception may be that leaves the method `op` of a repository: an error of openframe-core
-- raised for `op`, or an outside exception of none of the classes that the method lists.
abbrev pub Translated : {C S X : Type 0} → Driver C S X → String → Failure X → Type 0
Translated d op (adapter_error a) = a.operation ≡ op
Translated d op (outside x) = is_caught d x ≡ false
Translated d op runtime_error = ⊥
Translated d op type_error = ⊥
Translated d op unbound_local_error = ⊥
Translated d op attribute_error = ⊥

module _ {C S X : Type 0} (d : Driver C S X) (settings : RedisSettings) where
  pub delete-Translated :
      (entity_id : Text) {c : C} (w : World C S) {e : Failure X} {w' : World C S}
      → lookup (cache_key settings) w.client_cache ≡ some c
      → delete d settings entity_id w ≡ (raised e, w')
      → Translated d "delete" e
  unfolding delete wrap_redis
  delete-Translated entity_id w h r = ground (arith, get_redis_client_hit d settings w h)

module _ {C S X T : Type 0} (d : Driver C S X) (m : Mapping T X) (settings : RedisSettings)
    (pass : HooksPass d m) where
  decode-Translated :
      (op : String) (t : Text) (w : World C S) {e : Failure X} {w' : World C S}
      → decode d m settings t w ≡ (raised e, w')
      → Translated d op e
  unfolding decode
  decode-Translated op t w r = grind (arith, pass.loads_passes, pass.from_passes)

  pub get-Translated :
      (entity_id : Text) {c : C} (w : World C S) {e : Failure X} {w' : World C S}
      → lookup (cache_key settings) w.client_cache ≡ some c
      → get d m settings entity_id w ≡ (raised e, w')
      → Translated d "get" e
  unfolding get wrap_redis
  get-Translated entity_id w h r =
      grind (arith, get_redis_client_hit d settings w h, decode-Translated "get")

  pub create-Translated :
      (entity : T) {c : C} (w : World C S) {e : Failure X} {w' : World C S}
      → lookup (cache_key settings) w.client_cache ≡ some c
      → create d m settings entity w ≡ (raised e, w')
      → Translated d "create" e
  unfolding create wrap_redis
  create-Translated entity w h r =
      grind (arith, get_redis_client_hit d settings w h, pass.to_passes, pass.dumps_passes)

  pub update-Translated :
      (entity : T) {c : C} (w : World C S) {e : Failure X} {w' : World C S}
      → lookup (cache_key settings) w.client_cache ≡ some c
      → update d m settings entity w ≡ (raised e, w')
      → Translated d "update" e
  unfolding update wrap_redis
  update-Translated entity w h r =
      grind (arith, get_redis_client_hit d settings w h, pass.to_passes, pass.dumps_passes)

  decode_all-Translated :
      (op : String) (vs : List (Option Text)) (w : World C S) {e : Failure X} {w' : World C S}
      → decode_all d m settings vs w ≡ (raised e, w')
      → Translated d op e
  unfolding decode_all
  decode_all-Translated op [] w r = cc
  decode_all-Translated op (none ∷ vs) w r = decode_all-Translated op vs w r
  decode_all-Translated op (some v ∷ vs) w r =
      elim (bind-raised (decode d m settings v)
        (λ a. decode_all d m settings vs >>= λ as_. pure (a ∷ as_)) w r) [
          | inl p ↦ decode-Translated op v w p
          | inr (a, u, p, q) ↦
              elim (bind-raised (decode_all d m settings vs) (λ as_. pure (a ∷ as_)) u q) [
                | inl q' ↦ decode_all-Translated op vs u q'
                | inr (as_, u', q', bad) ↦ absurd (ground arith)
              ]
        ]

  page-Translated :
      (limit offset : ℕ) (c : C) (w : World C S) {e : Failure X} {w' : World C S}
      → translate (reraise d settings "list") (page d m settings limit offset c) w ≡ (raised e, w')
      → Translated d "list" e
  unfolding page wrap_redis
  page-Translated limit offset c w r = ground arith

  pub list-Translated :
      (limit offset : ℕ) {c : C} (w : World C S) {e : Failure X} {w' : World C S}
      → lookup (cache_key settings) w.client_cache ≡ some c
      → list d m settings limit offset w ≡ (raised e, w')
      → Translated d "list" e
  unfolding list
  list-Translated limit offset {c} w h r =
      elim (bind-raised (get_redis_client d settings) in_page w r) [
        | inl p ↦ absurd (ground (arith, get_redis_client_hit d settings w h))
        | inr (c', v, _, rest) ↦ elim (bind-raised (paged c') decoded v rest) [
          | inl p ↦ page-Translated limit offset c' v p
          | inr (vs, u, p, q) ↦
              elim (bind-raised (decode_all d m settings vs.0) (λ es. pure (es, vs.1)) u q) [
                | inl q' ↦ decode_all-Translated "list" vs.0 u q'
                | inr (es, u', q', bad) ↦ absurd (ground arith)
              ]
        ]
      ]
    where
      paged : C → Action (World C S) (Failure X) (List (Option Text) × ℕ)
      paged c' = translate (reraise d settings "list") (page d m settings limit offset c')

      decoded : List (Option Text) × ℕ → Action (World C S) (Failure X) (List T × ℕ)
      decoded vs = decode_all d m settings vs.0 >>= λ es. pure (es, vs.1)

      in_page : C → Action (World C S) (Failure X) (List T × ℕ)
      in_page c' = paged c' >>= decoded

  -- With a client in the cache, and json and hooks that raise none of the driver's classes,
  -- whatever leaves `get`, `list`, `create`, `update` and `delete` is an error of openframe-core
  -- raised for that operation, or an outside exception of none of the classes that its `except`
  -- lists.
  pub methods-Translated :
      (entity_id : Text) (limit offset : ℕ) (entity : T) {c : C} (w : World C S)
      → lookup (cache_key settings) w.client_cache ≡ some c
      → ((e : Failure X) (w' : World C S)
          → get d m settings entity_id w ≡ (raised e, w')
          → Translated d "get" e)
        × ((e : Failure X) (w' : World C S)
            → list d m settings limit offset w ≡ (raised e, w')
            → Translated d "list" e)
        × ((e : Failure X) (w' : World C S)
            → create d m settings entity w ≡ (raised e, w')
            → Translated d "create" e)
        × ((e : Failure X) (w' : World C S)
            → update d m settings entity w ≡ (raised e, w')
            → Translated d "update" e)
        × ((e : Failure X) (w' : World C S)
            → delete d settings entity_id w ≡ (raised e, w')
            → Translated d "delete" e)
  methods-Translated entity_id limit offset entity w h = (
    λ e w' r. get-Translated entity_id w h r,
    λ e w' r. list-Translated limit offset w h r,
    λ e w' r. create-Translated entity w h r,
    λ e w' r. update-Translated entity w h r,
    λ e w' r. delete-Translated d settings entity_id w h r,
  )
