-- ===== src/Redis/Fake.antt =====
-- A Redis server in memory, which meets the documented behaviour that the theorems assume: it is
-- what the witnesses run on, and models no code.
use openframe_adapters.Prelude.{
  ◌≡◌, refl, length, ap, suc, map, false, not, ℕ, ◌+◌, Bool, ◌||◌, ◌==◌, Option, none, some, List,
  [], ◌∷◌, Text, codes, eq_text, arith, if◌then◌else◌,
}
use openframe_adapters.Effect.{Outcome, ok, raised, Action}
use openframe_adapters.Dict.{Dict, text_eq, lookup, insert, pop, lookup-insert, lookup-pop}
use openframe_adapters.Redis.Driver.{
  Driver, RedisClass, asyncio_timeout, connection, authentication, timeout, response, data_error,
  redis_error, builtin_exception, null, text, other, Fields,
}
use openframe_adapters.Redis.Keys.{Mapping}
use openframe_adapters.Redis.Repository.{is_caught}
use openframe_adapters.Redis.Translation.{HooksPass}
use openframe_adapters.Redis.Store.{has, IsRedis}

-- The data, the clients made, and an exception that every command raises, if there is one.
pub record Server : Type 0 where
  pub held : Dict Text Text
  pub clients : ℕ
  pub fault : Option RedisClass

abbrev tag : RedisClass → ℕ
tag asyncio_timeout = 0
tag connection = 1
tag authentication = 2
tag timeout = 3
tag response = 4
tag data_error = 5
tag redis_error = 6
tag builtin_exception = 7

-- Every exception here is an `Exception`.
abbrev pub same_class : RedisClass → RedisClass → Bool
same_class x c = tag x == tag c || tag c == 7

abbrev reply : {A : Type 0} → A → (Server → Server) → Action Server RedisClass A
reply a f s = elim s.fault [ some x ↦ (raised x, s) | none ↦ (ok a, f s) ]

abbrev pub write : Bool → Text → Text → Server → Server
write b k v s = if b then record s { held = insert k v s.held } else s

-- The JSON of a document that holds its identifier alone is the identifier.
abbrev pub dumps_id : Fields → Outcome RedisClass Text
dumps_id [] = raised builtin_exception
dumps_id ((k, null) ∷ r) = raised builtin_exception
dumps_id ((k, other t) ∷ r) = raised builtin_exception
dumps_id ((k, text t) ∷ []) = if eq_text k (codes "id") then ok t else raised builtin_exception
dumps_id ((k, text t) ∷ x ∷ r) = raised builtin_exception

abbrev pub document : Text → Fields
document t = (codes "id", text t) ∷ []

keys : Dict Text Text → List Text
keys [] = []
keys ((k, v) ∷ d) = k ∷ keys d

unfoldable pub fake : Driver ℕ Server RedisClass
unfolding keys
fake = record {
  isinstance = same_class;
  from_url = λ settings s. (ok s.clients, record s { clients = s.clients + 1 });
  ping = λ c. reply tt (λ s. s);
  get = λ c k s. reply (lookup k s.held) (λ s. s) s;
  set_nx = λ c k v t s. let b = not (has (lookup k s.held)) in reply b (write b k v) s;
  set_xx = λ c k v t s. let b = has (lookup k s.held) in reply b (write b k v) s;
  delete = λ c k s.
      reply (if has (lookup k s.held) then 1 else 0) (λ s. record s { held = pop k s.held }) s;
  scan_iter = λ c pattern s. reply (keys s.held) (λ s. s) s;
  mget = λ c ks s. reply (map (λ k. lookup k s.held) ks) (λ s. s) s;
  aclose = λ c. reply tt (λ s. s);
  dumps = dumps_id;
  loads = λ t. ok (document t);
}

abbrev pub view : Server → Text → Option Text
view s k = lookup k s.held

pub fake-IsRedis : IsRedis fake view
unfolding fake
fake-IsRedis = record {
  get_reads = λ c k s v s' h. (ground arith, λ j. ground arith);
  set_nx_sets =
      λ c k v s done s' h. (ground arith, λ j. ground (arith, lookup-insert k j v s.held));
  set_xx_sets =
      λ c k v s done s' h. (ground arith, λ j. ground (arith, lookup-insert k j v s.held));
  delete_deletes = λ c k s n s' h. (ground arith, λ j. ground (arith, lookup-pop k j s.held));
}

-- A typed subclass, whose entities are identifiers.
abbrev read_document : Fields → Outcome RedisClass Text
read_document ((k, text t) ∷ []) = ok t
read_document _ = raised builtin_exception

unfoldable pub text_mapping : Mapping Text RedisClass
text_mapping = record { entity_to_dict = λ t. ok (document t); dict_to_entity = read_document }

dumps_id_passes : (f : Fields) (x : RedisClass) → dumps_id f ≡ raised x → is_caught fake x ≡ false
unfolding fake
dumps_id_passes [] x h = ground arith
dumps_id_passes ((k, null) ∷ r) x h = ground arith
dumps_id_passes ((k, other u) ∷ r) x h = ground arith
dumps_id_passes ((k, text u) ∷ []) x h = ground arith
dumps_id_passes ((k, text u) ∷ y ∷ r) x h = ground arith

read_document_passes :
    (f : Fields) (x : RedisClass) → read_document f ≡ raised x → is_caught fake x ≡ false
unfolding fake
read_document_passes ((k, text t) ∷ []) x h = cc
read_document_passes _ x h = ground arith

pub text-HooksPass : HooksPass fake text_mapping
unfolding fake text_mapping
text-HooksPass = record {
  loads_passes = λ t x h. cc;
  dumps_passes = dumps_id_passes;
  to_passes = λ t x h. cc;
  from_passes = read_document_passes;
}

length-map : (f : Text → Option Text) (ks : List Text) → length (map f ks) ≡ length ks
length-map f [] = refl
length-map f (k ∷ ks) = ap suc (length-map f ks)

pub mget_replies :
    (c : ℕ) (ks : List Text) (s : Server) (vs : List (Option Text)) (s' : Server)
    → fake.mget c ks s ≡ (ok vs, s')
    → length vs ≡ length ks
unfolding fake
mget_replies c ks s vs s' h = ground (arith, length-map (λ k. lookup k s.held) ks)
