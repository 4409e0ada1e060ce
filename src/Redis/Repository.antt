-- ===== src/Redis/Repository.antt =====
-- repository.py of the Redis adapter: the translation of exceptions and the
-- methods of `RedisRepository`.
use openframe_adapters.Prelude.{
  ℕ, Bool, ◌||◌, Option, none, some, List, [], ◌∷◌, ◌++◌, Text, codes, ltb, length, if◌then◌else◌,
  String,
}
use openframe_adapters.Effect.{
  Outcome, ok, raised, Action, ◌>>=◌, ◌>>◌, pure, raise, gets, modify, catch,
}
use openframe_adapters.Effect.Errors.{
  ErrorClass, Failure, adapter_error, outside, connection_error, timeout_error, query_error,
  is_exception, PluginHealth, literal, str_of, ready, failed, is_ready,
}
use openframe_adapters.Dict.{text_eq, lookup, pop}
use openframe_adapters.Redis.Driver.{
  Driver, RedisSettings, asyncio_timeout, connection, authentication, timeout, response, data_error,
  redis_error, builtin_exception,
}
use openframe_adapters.Redis.Keys.{Mapping, make_key, id_of, is_empty, ttl_of, page_keys}
use openframe_adapters.Redis.Connection.{
  key_eq, World, call, translate, cache_key, get_redis_client,
}

module _ {C S X : Type 0} (d : Driver C S X) where
  -- The tuple of classes that every `except` clause of the repository lists.
  abbrev pub is_caught : X → Bool
  is_caught exc =
      d.isinstance exc asyncio_timeout
      || d.isinstance exc connection
      || d.isinstance exc authentication
      || d.isinstance exc timeout
      || d.isinstance exc response
      || d.isinstance exc data_error
      || d.isinstance exc redis_error

-- A call of json or of a hook: its exceptions are not translated.
abbrev pub hook : {C S X A : Type 0} → Outcome X A → Action (World C S) (Failure X) A
hook o w = elim o [ ok a ↦ (ok a, w) | raised x ↦ (raised (outside x), w) ]

module _ {C S X : Type 0} (d : Driver C S X) (settings : RedisSettings) where
  abbrev pub failure : ErrorClass → String → Option X → Failure X
  failure c op cause =
      adapter_error
        (record { error_class = c; adapter = settings.adapter_name; operation = op; cause = cause })

  -- `_wrap_redis`
  unfoldable pub wrap_redis : X → String → Failure X
  wrap_redis exc op =
      if d.isinstance exc asyncio_timeout
      then failure timeout_error op (some exc)
      else if d.isinstance exc connection || d.isinstance exc authentication
      then failure connection_error op (some exc)
      else failure query_error op (some exc)

  abbrev pub reraise : String → X → Failure X
  reraise op exc = if is_caught d exc then wrap_redis exc op else outside exc

module _ {C S X T : Type 0} (d : Driver C S X) (m : Mapping T X) (settings : RedisSettings) where
  unfoldable pub decode : Text → Action (World C S) (Failure X) T
  decode value = do fields ← hook (d.loads value); hook (m.dict_to_entity fields)

  unfoldable pub get : Text → Action (World C S) (Failure X) (Option T)
  unfolding decode
  get entity_id = do
    client ← get_redis_client d settings
    value ← translate (reraise d settings "get") (call (d.get client (make_key settings entity_id)))
    elim value [ none ↦ pure none | some v ↦ (do e ← decode v; pure (some e)) ]

  -- `[self._dict_to_entity(json.loads(v)) for v in values if v is not None]`
  unfoldable pub decode_all : List (Option Text) → Action (World C S) (Failure X) (List T)
  decode_all [] = pure []
  decode_all (none ∷ vs) = decode_all vs
  decode_all (some v ∷ vs) = do e ← decode v; es ← decode_all vs; pure (e ∷ es)

  -- The body of the `try` in `list`: the values of the page, and the number of keys.
  unfoldable pub page : ℕ → ℕ → C → Action (World C S) (Failure X) (List (Option Text) × ℕ)
  page limit offset client = do
    all_keys ← call (d.scan_iter client (settings.redis_key_prefix ++ codes ":*"))
    elim (page_keys limit offset all_keys) [
      | [] ↦ pure ([], length all_keys)
      | k ∷ ks ↦ (do values ← call (d.mget client (k ∷ ks)); pure (values, length all_keys))
    ]

  unfoldable pub list : ℕ → ℕ → Action (World C S) (Failure X) (List T × ℕ)
  unfolding page decode decode_all
  list limit offset = do
    client ← get_redis_client d settings
    (values, total) ← translate (reraise d settings "list") (page limit offset client)
    entities ← decode_all values
    pure (entities, total)

  unfoldable pub create : T → Action (World C S) (Failure X) T
  create entity = do
    client ← get_redis_client d settings
    fields ← hook (m.entity_to_dict entity)
    if is_empty (id_of fields) then raise (failure d settings query_error "create" none) else do
      value ← hook (d.dumps fields)
      set_ok ←
          translate (reraise d settings "create")
            (call (d.set_nx client (make_key settings (id_of fields)) value (ttl_of settings)))
      if set_ok then pure entity else raise (failure d settings query_error "create" none)

  unfoldable pub update : T → Action (World C S) (Failure X) (Option T)
  update entity = do
    client ← get_redis_client d settings
    fields ← hook (m.entity_to_dict entity)
    value ← hook (d.dumps fields)
    set_ok ←
        translate (reraise d settings "update")
          (call (d.set_xx client (make_key settings (id_of fields)) value (ttl_of settings)))
    if set_ok then pure (some entity) else pure none

module _ {C S X : Type 0} (d : Driver C S X) (settings : RedisSettings) where
  unfoldable pub delete : Text → Action (World C S) (Failure X) Bool
  delete entity_id = do
    client ← get_redis_client d settings
    deleted ←
        translate (reraise d settings "delete")
          (call (d.delete client (make_key settings entity_id)))
    pure (ltb 0 deleted)

  -- The client leaves the cache before it is closed.
  unfoldable pub close : Action (World C S) (Failure X) (Unit {0})
  close = do
    client ← gets (λ w. lookup (cache_key settings) w.client_cache)
    modify (λ w. record w { client_cache = pop (cache_key settings) w.client_cache })
    elim client [ none ↦ pure tt | some c ↦ call (d.aclose c) ]

  -- The budget of `wait_for` is part of the ping.
  unfoldable pub health : Action (World C S) (Failure X) (PluginHealth X)
  health =
      catch
        (do
          client ← get_redis_client d settings
          call (d.ping client)
          pure (record { status = ready; message = literal "" }))
        (λ e.
          if is_exception (λ x. d.isinstance x builtin_exception) e
          then pure (record { status = failed; message = str_of e })
          else raise e)

  unfoldable pub initialize : Action (World C S) (Failure X) (Unit {0})
  initialize = do
    get_redis_client d settings
    h ← health
    if is_ready h.status
        then pure tt
        else raise (failure d settings connection_error "initialize" none)

  unfoldable pub shutdown : Action (World C S) (Failure X) (Unit {0})
  shutdown = close
