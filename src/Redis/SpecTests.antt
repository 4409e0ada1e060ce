-- ===== src/Redis/SpecTests.antt =====
-- The refinement of the Redis repository at a concrete sequence of calls, on the server in memory.
use openframe_adapters.Prelude.{
  ◌≡◌, refl, true, false, none, some, Bool, Text, codes, List, [], ◌∷◌, ℕ, arith, not,
  if◌then◌else◌,
}
use openframe_adapters.Effect.{raised, Outcome, ok}
use openframe_adapters.Dict.{text_eq, lookup, pop}
use openframe_adapters.Redis.Driver.{builtin_exception, text, RedisClass, Fields, RedisSettings}
use openframe_adapters.Redis.Connection.{key_eq, World, cache_key}
use openframe_adapters.Redis.Keys.{Mapping, id_of}
use openframe_adapters.Redis.Spec.{
  Request, find, add, change, remove, found, added, changed, removed, Entities, perform_all,
  respond, respond_all, Answers, Represents, refused,
}
use openframe_adapters.Redis.Store.{has}
use openframe_adapters.Redis.Refinement.{perform_all_refines}
use openframe_adapters.Redis.Fake.{write, Server, fake, view, fake-IsRedis, document}

abbrev notes : RedisSettings
notes = record {
  redis_url = codes "redis://localhost";
  redis_max_connections = 10;
  redis_socket_timeout = 5000;
  redis_socket_connect_timeout = 5000;
  redis_key_prefix = codes "notes";
  redis_default_ttl = 0;
  adapter_name = "redis";
  operation_timeout = 30000;
  connection_timeout = 30000;
}

abbrev up : Server → Bool
up s = elim s.fault [ none ↦ true | some x ↦ false ]

-- Notes that are dicts or objects: by the hooks, as by those of the base class, both become a dict,
-- and what is read is one.
data Note : Type 0 where
  dict : Text → Note
  object : Text → Note

abbrev text_of : Note → Text
text_of (dict t) = t
text_of (object t) = t

abbrev read_back : Note → Note
read_back n = dict (text_of n)

abbrev read_note : Fields → Outcome RedisClass Note
read_note ((k, text t) ∷ []) = ok (dict t)
read_note _ = raised builtin_exception

abbrev note_mapping : Mapping Note RedisClass
note_mapping = record {
  entity_to_dict = λ n. ok (document (text_of n));
  dict_to_entity = read_note;
}

fake-Answers : Answers fake note_mapping notes up (λ n. document (text_of n)) text_of read_back
unfolding fake
fake-Answers = record {
  mapped = λ t. refl;
  dumped = λ t. refl;
  read = λ n. (document (text_of n), refl, refl);
  get_answers = λ c k s h. (lookup k s.held, s, ground arith, h);
  set_nx_answers = λ c k v t s h.
      let b = not (has (lookup k s.held)) in (b, write b k v s, ground arith, ground arith);
  set_xx_answers = λ c k v t s h.
      let b = has (lookup k s.held) in (b, write b k v s, ground arith, ground arith);
  delete_answers = λ c k s h.
      (if has (lookup k s.held) then 1 else 0, record s { held = pop k s.held }, ground arith, h);
}

abbrev no_entities : Entities Note
no_entities i = none

abbrev start : World ℕ Server
start = record {
  client_cache = (cache_key notes, 7) ∷ [];
  server = record { held = []; clients = 0; fault = none };
}

start-Represents : Represents fake note_mapping notes 7 up text_of view start no_entities
unfolding lookup
start-Represents = record { cached = refl; lives = refl; holds = λ i. refl }

abbrev identifier : Note → Text
identifier n = id_of (document (text_of n))

abbrev session : List (Request Note)
session =
    add (object (codes "a"))
    ∷ add (dict (codes "a"))
    ∷ find (codes "a")
    ∷ change (dict (codes "b"))
    ∷ remove (codes "a")
    ∷ find (codes "a")
    ∷ []

perform_all_refines_example :
    ((perform_all fake note_mapping notes session start).0
      ≡ ok (added (object (codes "a")))
        ∷ refused fake note_mapping notes identifier read_back
        ∷ ok (found (some (dict (codes "a"))))
        ∷ ok (changed none)
        ∷ ok (removed true)
        ∷ ok (found none)
        ∷ [])
    × Represents fake note_mapping notes 7 up text_of view
        (perform_all fake note_mapping notes session start).1
        (respond_all fake note_mapping notes identifier read_back session no_entities).1
unfolding respond_all respond id_of lookup
perform_all_refines_example =
    perform_all_refines fake note_mapping notes view fake-IsRedis refl fake-Answers 7 session start
      no_entities start-Represents
