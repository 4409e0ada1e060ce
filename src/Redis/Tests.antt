-- ===== src/Redis/Tests.antt =====
-- The theorems about the Redis adapter at concrete inputs, on the server in memory.
use openframe_adapters.Prelude.{true, ◌≡◌, ◌≢◌, refl, false, none, some, [], ◌∷◌, Text, codes, ℕ}
use openframe_adapters.Prelude.{List, ◌-◌, ◌≤◌, min, length}
use openframe_adapters.Effect.{ok, raised}
use openframe_adapters.Effect.Errors.{Failure, ready, stopped, is_exception}
use openframe_adapters.Redis.Driver.{RedisClass, connection}
use openframe_adapters.Redis.Keys.{page_keys, sort_keys}
use openframe_adapters.Redis.Translation.{Translated, methods-Translated}
use openframe_adapters.Redis.Listing.{list_bounds}
use openframe_adapters.Redis.Plugin
use openframe_adapters.Redis.Plugin.{Repo}
use openframe_adapters.Redis.PluginLife.{shutdown_releases}
use openframe_adapters.Redis.Fake.{text-HooksPass, mget_replies}
use openframe_adapters.Dict.{pop, lookup, insert}
use openframe_adapters.Redis.Driver.{RedisSettings, timeout}
use openframe_adapters.Redis.Connection.{key_eq, World, cache_key, get_redis_client}
use openframe_adapters.Redis.Keys.{make_key, id_of}
use openframe_adapters.Redis.Repository.{get, list, create, update, delete}
use openframe_adapters.Redis.RoundTrip.{create_get, nested_delete}
use openframe_adapters.Redis.Fake.{Server, fake, view, fake-IsRedis, text_mapping, document}

abbrev app : RedisSettings
app = record {
  redis_url = codes "redis://localhost";
  redis_max_connections = 10;
  redis_socket_timeout = 5000;
  redis_socket_connect_timeout = 5000;
  redis_key_prefix = codes "app";
  redis_default_ttl = 0;
  adapter_name = "redis";
  operation_timeout = 30000;
  connection_timeout = 30000;
}

abbrev nested : RedisSettings
nested = record app { redis_key_prefix = codes "app:users" }

abbrev empty : Server
empty = record { held = []; clients = 0; fault = none }

abbrev warm : World ℕ Server
warm = record { client_cache = (cache_key app, 7) ∷ []; server = empty }

abbrev cold : World ℕ Server
cold = record { client_cache = []; server = record empty { fault = some timeout } }

warm_cached : lookup (cache_key app) warm.client_cache ≡ some 7
unfolding lookup
warm_cached = refl

after_create : World ℕ Server
after_create = (create fake text_mapping app (codes "a") warm).1

-- The server that holds "u" of the nested repository.
abbrev users : Server
users = record empty { held = (codes "app:users:u", codes "u") ∷ [] }

-- A server that is out of reach of a client in the cache.
abbrev broken : World ℕ Server
broken = record warm { server = record empty { fault = some connection } }

abbrev two_keys : List Text
two_keys = codes "b" ∷ codes "a" ∷ []

-- `create` stores one key.
create_test : after_create.server.held ≡ (codes "app:a", codes "a") ∷ []
unfolding after_create create get_redis_client fake text_mapping lookup insert make_key id_of
create_test = refl

-- The server that holds "a" of the application.
abbrev stocked : Server
stocked = record empty { held = (codes "app:a", codes "a") ∷ [] }

-- The same, with a client in the cache.
abbrev with_stock : World ℕ Server
with_stock = record warm { server = stocked }

create_get_example :
    (create fake text_mapping app (codes "a") warm ≡ (ok (codes "a"), with_stock))
    × (get fake text_mapping app (id_of (document (codes "a"))) with_stock
        ≡ (ok (some (codes "a")), with_stock))
    × ((j : Text)
        → id_of (document (codes "a")) ≢ j
        → view stocked (make_key app j) ≡ view empty (make_key app j))
unfolding fake text_mapping make_key id_of lookup insert
create_get_example =
    create_get fake text_mapping app view fake-IsRedis warm warm_cached refl (codes "a") (codes "a")
      (document (codes "a")) (document (codes "a")) (codes "a") refl refl refl refl refl refl refl
      refl

nested_delete_example :
    (delete fake app (codes "users:u") (record warm { server = users })
      ≡ (ok true, record warm { server = empty }))
    × (view empty (make_key nested (codes "u")) ≡ none)
unfolding fake lookup pop make_key
nested_delete_example =
    nested_delete fake text_mapping app view fake-IsRedis (record warm { server = users }) refl
      (codes "users") nested (codes "u") (record { prefix = refl }) {n = 1} {s = empty} refl

methods-Translated_example :
    ((e : Failure RedisClass) (w' : World ℕ Server)
      → get fake text_mapping app (codes "a") broken ≡ (raised e, w')
      → Translated fake "get" e)
    × ((e : Failure RedisClass) (w' : World ℕ Server)
        → list fake text_mapping app 10 0 broken ≡ (raised e, w')
        → Translated fake "list" e)
    × ((e : Failure RedisClass) (w' : World ℕ Server)
        → create fake text_mapping app (codes "a") broken ≡ (raised e, w')
        → Translated fake "create" e)
    × ((e : Failure RedisClass) (w' : World ℕ Server)
        → update fake text_mapping app (codes "a") broken ≡ (raised e, w')
        → Translated fake "update" e)
    × ((e : Failure RedisClass) (w' : World ℕ Server)
        → delete fake app (codes "a") broken ≡ (raised e, w')
        → Translated fake "delete" e)
methods-Translated_example =
    methods-Translated fake text_mapping app text-HooksPass (codes "a") 10 0 (codes "a") broken
      warm_cached

-- What the first call leaves: its client, the first one made, in the cache.
abbrev connected : World ℕ Server
connected = record { client_cache = (cache_key app, 0) ∷ []; server = record empty { clients = 1 } }

list_bounds_example :
    (◌≡◌ {A = ℕ} 1 (length (codes "app:a" ∷ []))) × (length (codes "a" ∷ []) ≤ min 10 (1 - 0))
unfolding fake list get_redis_client lookup page_keys sort_keys text_mapping
list_bounds_example =
    list_bounds fake text_mapping app 10 0 with_stock {keys = codes "app:a" ∷ []} mget_replies
      warm_cached refl {es = codes "a" ∷ []} refl

abbrev plugin : Repo Text RedisClass
plugin = record { settings = app; hooks = text_mapping }

shutdown_releases_example :
    let (r, s) =
      Plugin.shutdown {T = Text} fake (record { held = some plugin; status = ready }, warm) in
    (s.0.status ≡ stopped)
    × (lookup (cache_key app) s.1.client_cache ≡ none)
    × ((e : Failure RedisClass) → r ≡ raised e → is_exception (Plugin.catches fake) e ≡ false)
shutdown_releases_example = shutdown_releases fake plugin warm ready
