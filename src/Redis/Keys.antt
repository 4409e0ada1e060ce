-- ===== src/Redis/Keys.antt =====
-- repository.py of the Redis adapter: keys, the entity mapping, and the sorting of keys.
use openframe_adapters.Prelude.{
  ℕ, take, drop, Bool, true, false, Option, none, some, List, [], ◌∷◌, ◌++◌, Text, codes, le_text,
  ltb, if◌then◌else◌,
}
use openframe_adapters.Effect.{Outcome, ok}
use openframe_adapters.Dict.{text_eq, lookup}
use openframe_adapters.Redis.Driver.{RedisSettings, Value, null, text, other, Fields}

-- `_make_key`: `{prefix}:{entity_id}`
unfoldable pub make_key : RedisSettings → Text → Text
make_key settings entity_id = settings.redis_key_prefix ++ (codes ":" ++ entity_id)

-- The hooks that a typed subclass overrides: `_entity_to_dict` and `_dict_to_entity`.
pub record Mapping (T X : Type 0) : Type 0 where
  pub entity_to_dict : T → Outcome X Fields
  pub dict_to_entity : Fields → Outcome X T

-- What the base class is given: a dict, or an object with its `vars()`.
pub data Entity : Type 0 where
  dict : Fields → Entity
  object : Fields → Entity

unfoldable pub base_entity_to_dict : Entity → Fields
base_entity_to_dict (dict data_) = data_
base_entity_to_dict (object attributes) = attributes

-- `RedisRepository` itself: `_dict_to_entity` returns the dict.
unfoldable pub base_mapping : {X : Type 0} → Mapping Entity X
unfolding base_entity_to_dict
base_mapping = record {
  entity_to_dict = λ e. ok (base_entity_to_dict e);
  dict_to_entity = λ d. ok (dict d);
}

-- `str(v)` for a value of the dict
abbrev pub py_str : Value → Text
py_str null = codes "None"
py_str (text t) = t
py_str (other t) = t

-- `str(data.get("id", ""))`
unfoldable pub id_of : Fields → Text
id_of data_ = elim (lookup (codes "id") data_) [ none ↦ [] | some v ↦ py_str v ]

abbrev pub is_empty : Text → Bool
is_empty [] = true
is_empty (c ∷ cs) = false

-- `settings.redis_default_ttl or None`
abbrev pub ttl_of : RedisSettings → Option ℕ
ttl_of settings = if ltb 0 settings.redis_default_ttl then some settings.redis_default_ttl else none

-- `list.sort()` on keys
unfoldable pub insert_key : Text → List Text → List Text
insert_key k [] = k ∷ []
insert_key k (j ∷ ks) = let rest = insert_key k ks in if le_text k j then k ∷ j ∷ ks else j ∷ rest

unfoldable pub sort_keys : List Text → List Text
unfolding insert_key
sort_keys [] = []
sort_keys (k ∷ ks) = insert_key k (sort_keys ks)

-- `all_keys.sort(); all_keys[offset: offset + limit]`, for a limit and an offset from 0
unfoldable pub page_keys : ℕ → ℕ → List Text → List Text
page_keys limit offset all_keys = take limit (drop offset (sort_keys all_keys))
