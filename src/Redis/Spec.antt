-- ===== src/Redis/Spec.antt =====
-- The abstract repository, a map from identifiers to entities: what its methods promise, and what it
-- means that a process holds it.
use openframe_adapters.Prelude.{
  ℕ, ◌≡◌, Option, some, none, true, false, Bool, Text, eq_text, List, [], ◌∷◌, if◌then◌else◌,
}
use openframe_adapters.Effect.{Outcome, ok, raised, Action, ◌>>=◌, pure}
use openframe_adapters.Effect.Errors.{Failure, query_error}
use openframe_adapters.Dict.{lookup}
use openframe_adapters.Redis.Driver.{Driver, RedisSettings, Fields}
use openframe_adapters.Redis.Connection.{key_eq, World, cache_key}
use openframe_adapters.Redis.Keys.{Mapping, make_key, is_empty}
use openframe_adapters.Redis.Repository.{get, create, update, delete, failure}

-- The calls of a client, and what they return.
pub data Request (T : Type 0) : Type 0 where
  find : Text → Request T
  add : T → Request T
  change : T → Request T
  remove : Text → Request T

pub data Reply (T : Type 0) : Type 0 where
  found : Option T → Reply T
  added : T → Reply T
  changed : Option T → Reply T
  removed : Bool → Reply T

-- The abstract repository: which entity an identifier has.
abbrev pub Entities : Type 0 → Type 0
Entities T = Text → Option T

abbrev pub assign : {T : Type 0} → Text → Option T → Entities T → Entities T
assign i o f j = if eq_text i j then o else f j

abbrev pub encode : {T : Type 0} → (T → Text) → Option T → Option Text
encode text_of none = none
encode text_of (some t) = some (text_of t)

abbrev pub present : {T : Type 0} → Option T → Bool
present none = false
present (some t) = true

abbrev pub back_of : {T : Type 0} → (T → T) → Option T → Option T
back_of read_back none = none
back_of read_back (some t) = some (read_back t)

module _ {C S X T : Type 0} (d : Driver C S X) (m : Mapping T X) (settings : RedisSettings) where
  unfoldable pub perform : Request T → Action (World C S) (Failure X) (Reply T)
  perform (find i) = do e ← get d m settings i; pure (found e)
  perform (add t) = do e ← create d m settings t; pure (added e)
  perform (change t) = do e ← update d m settings t; pure (changed e)
  perform (remove i) = do b ← delete d settings i; pure (removed b)

  -- A sequence of calls, whatever each returns or raises.
  unfoldable pub perform_all :
      List (Request T) → World C S → List (Outcome (Failure X) (Reply T)) × World C S
  perform_all [] w = ([], w)
  perform_all (r ∷ rs) w =
      let (o, w') = perform r w in let (os, w'') = perform_all rs w' in (o ∷ os, w'')

  -- The fields and the text of every entity, the entity that is read back of the text (a dict for an
  -- object, by the hooks of the base class), and a server that answers every command.
  pub record Answers (alive : S → Bool) (fields : T → Fields) (text_of : T → Text)
      (read_back : T → T) : Type 0 where
    pub mapped : (t : T) → m.entity_to_dict t ≡ ok (fields t)
    pub dumped : (t : T) → d.dumps (fields t) ≡ ok (text_of t)
    pub read :
        (t : T)
        → (f : Fields) × (d.loads (text_of t) ≡ ok f) × (m.dict_to_entity f ≡ ok (read_back t))
    pub get_answers :
        (c : C) (k : Text) (s : S)
        → alive s ≡ true
        → (v : Option Text) × (s' : S) × (d.get c k s ≡ (ok v, s')) × (alive s' ≡ true)
    pub set_nx_answers :
        (c : C) (k v : Text) (t : Option ℕ) (s : S)
        → alive s ≡ true
        → (b : Bool) × (s' : S) × (d.set_nx c k v t s ≡ (ok b, s')) × (alive s' ≡ true)
    pub set_xx_answers :
        (c : C) (k v : Text) (t : Option ℕ) (s : S)
        → alive s ≡ true
        → (b : Bool) × (s' : S) × (d.set_xx c k v t s ≡ (ok b, s')) × (alive s' ≡ true)
    pub delete_answers :
        (c : C) (k : Text) (s : S)
        → alive s ≡ true
        → (n : ℕ) × (s' : S) × (d.delete c k s ≡ (ok n, s')) × (alive s' ≡ true)

  -- The specification, given the identifier of every entity and what is read back of it.
  module _ (identifier : T → Text) (read_back : T → T) where
    abbrev pub refused : Outcome (Failure X) (Reply T)
    refused = raised (failure d settings query_error "create" none)

    unfoldable pub respond : Request T → Entities T → Outcome (Failure X) (Reply T) × Entities T
    respond (find i) f = (ok (found (back_of read_back (f i))), f)
    respond (add t) f =
        if is_empty (identifier t)
        then (refused, f)
        else if present (f (identifier t))
        then (refused, f)
        else (ok (added t), assign (identifier t) (some t) f)
    respond (change t) f =
        if present (f (identifier t))
        then (ok (changed (some t)), assign (identifier t) (some t) f)
        else (ok (changed none), f)
    respond (remove i) f = (ok (removed (present (f i))), assign i none f)

    unfoldable pub respond_all :
        List (Request T) → Entities T → List (Outcome (Failure X) (Reply T)) × Entities T
    respond_all [] f = ([], f)
    respond_all (r ∷ rs) f =
        let (o, f') = respond r f in let (os, f'') = respond_all rs f' in (o ∷ os, f'')

  -- The process has a client, the server answers, and it holds the text of the entity of every
  -- identifier that has one, under the key of the identifier.
  pub record Represents (c : C) (alive : S → Bool) (text_of : T → Text)
      (view : S → Text → Option Text) (w : World C S) (f : Entities T) : Type 0 where
    pub cached : lookup (cache_key settings) w.client_cache ≡ some c
    pub lives : alive w.server ≡ true
    pub holds : (i : Text) → view w.server (make_key settings i) ≡ encode text_of (f i)
