-- ===== src/Redis/RaceTests.antt =====
-- The race for the client cache at two tasks, on the server in memory.
use openframe_adapters.Prelude.{ℕ, ◌≡◌, refl, none, some, [], codes, arith}
use openframe_adapters.Dict.{lookup, insert}
use openframe_adapters.Redis.Driver.{RedisSettings}
use openframe_adapters.Redis.Connection.{key_eq, World, cache_key}
use openframe_adapters.Redis.Race.{
  waiting, pinging, returned, becomes, Tasks, Reach, here, next, run, make, reply, cached, IsShared,
  Reach-IsShared, second_client_replaces_first,
}
use openframe_adapters.Redis.Alone.{begun, goes_on, Ends, runs_alone}
use openframe_adapters.Redis.Fake.{Server, fake}

abbrev shared : RedisSettings
shared = record {
  redis_url = codes "redis://localhost";
  redis_max_connections = 10;
  redis_socket_timeout = 5000;
  redis_socket_connect_timeout = 5000;
  redis_key_prefix = codes "app";
  redis_default_ttl = 0;
  adapter_name = "redis";
  operation_timeout = 30000;
  connection_timeout = 30000;
}

abbrev cold : Tasks fake shared
cold = record {
  world = record { client_cache = []; server = record { held = []; clients = 0; fault = none } };
  progress = λ i. waiting;
}

cold-IsShared : IsShared fake shared cold
unfolding lookup
cold-IsShared = record { owned = λ c e. absurd (cc); kept = λ i c e. absurd (cc) }

second_client_replaces_first_example :
    (u : Tasks fake shared) × Reach fake shared cold u
    × (u.progress 0 ≡ returned 0)
    × (u.progress 1 ≡ returned 1)
    × (cached fake shared u ≡ some 1)
unfolding fake lookup
second_client_replaces_first_example =
    second_client_replaces_first fake shared cold 0 1 refl refl (omega arith) refl refl refl refl
      refl

-- The task 3 has made its client.
abbrev made_one : Tasks fake shared
made_one = record {
  world = record { client_cache = []; server = record { held = []; clients = 1; fault = none } };
  progress = becomes cold.progress 3 (pinging 0);
}

runs_alone_example : Ends fake shared cold 3 made_one
unfolding fake lookup
runs_alone_example = runs_alone fake shared cold made_one 3 refl (goes_on begun (make refl refl))

-- The server has made one client, and it is the one in the cache.
abbrev one_client : World ℕ Server
one_client = record {
  client_cache = insert (cache_key shared) 0 [];
  server = record { held = []; clients = 1; fault = none };
}

Reach-IsShared_example : IsShared fake shared (record {
  world = one_client;
  progress = becomes (becomes cold.progress 0 (pinging 0)) 0 (returned 0);
})
unfolding fake lookup
Reach-IsShared_example =
    Reach-IsShared fake shared cold-IsShared
      (next (next here (run 0 (make refl refl))) (run 0 (reply refl)))
