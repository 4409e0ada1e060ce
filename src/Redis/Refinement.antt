-- ===== src/Redis/Refinement.antt =====
-- The repository implements its specification: any sequence of calls returns and raises what the map
-- from identifiers to entities says.
use openframe_adapters.Prelude.{
  ◌≡◌, refl, Option-cases, some, none, arith, true, Bool, Bool-cases, Text, eq_text, eq_text→eq,
  eq_text_refl, List, [], ◌∷◌, inl, inr, Option,
}
use openframe_adapters.Effect.{raised}
use openframe_adapters.Effect.Errors.{query_error}
use openframe_adapters.Dict.{lookup}
use openframe_adapters.Redis.Driver.{Driver, RedisSettings, Fields}
use openframe_adapters.Redis.Connection.{key_eq, World, cache_key}
use openframe_adapters.Redis.Keys.{Mapping, make_key, id_of, is_empty, ttl_of}
use openframe_adapters.Redis.Repository.{create, failure}
use openframe_adapters.Redis.Cache.{get_redis_client_hit}
use openframe_adapters.Redis.KeySpace.{make_key_ne}
use openframe_adapters.Redis.Store.{
  IsRedis, create_inserts, update_overwrites, delete_removes, get_misses, get_finds,
}
use openframe_adapters.Redis.Spec.{
  Request, find, add, change, remove, Entities, perform, perform_all, respond, respond_all, Answers,
  Represents,
}

eq_text-make_key :
    (settings : RedisSettings) (i j : Text)
    → eq_text (make_key settings i) (make_key settings j) ≡ eq_text i j
eq_text-make_key settings i j = elim (Bool-cases (eq_text i j)) [
  | inl same ↦ let e = eq_text→eq i j same in rw (same, ← e) (eq_text_refl (make_key settings i))
  | inr other ↦ rw other (make_key_ne settings i j (λ e. cc (other, eq_text_refl i, e)))
]

module _ {C S X T : Type 0} (d : Driver C S X) (m : Mapping T X) (settings : RedisSettings)
    (view : S → Text → Option Text) (laws : IsRedis d view) (no_ttl : ttl_of settings ≡ none)
    {alive : S → Bool} {fields : T → Fields} {text_of : T → Text} {read_back : T → T}
    (answers : Answers d m settings alive fields text_of read_back) (c : C) where
  abbrev identifier : T → Text
  identifier t = id_of (fields t)

  abbrev Holds : World C S → Entities T → Type 0
  Holds w f = Represents d m settings c alive text_of view w f

  -- One call does what the specification says, from and to what represents it.
  abbrev Implements : Request T → World C S → Entities T → Type 0
  Implements r w f =
      (w' : World C S) × (perform d m settings r w
        ≡ ((respond d m settings identifier read_back r f).0, w'))
      × Holds w' (respond d m settings identifier read_back r f).1

  find-Implements :
      (i : Text) (w : World C S) (f : Entities T) → Holds w f → Implements (find i) w f
  unfolding perform respond
  find-Implements i w f rep =
      let (v, s', q, up) = answers.get_answers c (make_key settings i) w.server rep.lives in
      let (now, after) = laws.get_reads c _ _ v s' q in
      (
        record w { server = s' },
        elim (Option-cases (f i)) [
          | inl absent ↦ ground (
            arith,
            get_misses d m settings view laws i w rep.cached q
                (ground (arith, rep.holds i, absent)),
            absent,
          )
          | inr (t, there) ↦ ground (
            arith,
            get_finds d m settings view laws i w rep.cached (answers.read t).0 (text_of t)
                (read_back t) (answers.read t).1 (answers.read t).2
                (ground (arith, rep.holds i, there)) q,
            there,
          )
        ],
        record {
          cached = rep.cached;
          lives = up;
          holds = λ j. ground (arith, after (make_key settings j), rep.holds j);
        },
      )

  remove-Implements :
      (i : Text) (w : World C S) (f : Entities T) → Holds w f → Implements (remove i) w f
  unfolding perform respond
  remove-Implements i w f rep =
      let (n, s', q, up) = answers.delete_answers c (make_key settings i) w.server rep.lives in
      let (gone, stores) = delete_removes d m settings view laws i w rep.cached q in
      (
        record w { server = s' },
        ground (arith, gone, rep.holds i),
        record {
          cached = rep.cached;
          lives = up;
          holds = λ j.
              ground
                (arith, stores (make_key settings j), eq_text-make_key settings i j, rep.holds j);
        },
      )

  change-Implements :
      (t : T) (w : World C S) (f : Entities T) → Holds w f → Implements (change t) w f
  unfolding perform respond
  change-Implements t w f rep =
      let (b, s', q, up) =
        answers.set_xx_answers c (make_key settings (identifier t)) (text_of t) (ttl_of settings)
          w.server rep.lives in
      let (done, stores) =
        update_overwrites d m settings view laws t w (fields t) (text_of t) no_ttl rep.cached
          (answers.mapped t) (answers.dumped t) q in
      (
        record w { server = s' },
        ground (arith, done, rep.holds (identifier t)),
        record {
          cached = rep.cached;
          lives = up;
          holds = λ j. ground (
            arith,
            stores (make_key settings j),
            eq_text-make_key settings (identifier t) j,
            rep.holds (identifier t),
            rep.holds j,
          );
        },
      )

  create_nameless :
      (t : T) (w : World C S)
      → lookup (cache_key settings) w.client_cache ≡ some c
      → is_empty (identifier t) ≡ true
      → create d m settings t w ≡ (raised (failure d settings query_error "create" none), w)
  unfolding create
  create_nameless t w cached nameless =
      ground (arith, get_redis_client_hit d settings w cached, answers.mapped t)

  add-Implements : (t : T) (w : World C S) (f : Entities T) → Holds w f → Implements (add t) w f
  unfolding perform respond
  add-Implements t w f rep = elim (Bool-cases (is_empty (identifier t))) [
    | inl nameless ↦ (
      w,
      ground (arith, nameless, create_nameless t w rep.cached nameless),
      record {
        cached = rep.cached;
        lives = rep.lives;
        holds = λ j. ground (arith, nameless, rep.holds j);
      },
    )
    | inr named ↦
        let (b, s', q, up) =
          answers.set_nx_answers c (make_key settings (identifier t)) (text_of t) (ttl_of settings)
            w.server rep.lives in
        let (done, stores) =
          create_inserts d m settings view laws t w (fields t) (text_of t) no_ttl rep.cached
            (answers.mapped t) (answers.dumped t) named q in
        (
          record w { server = s' },
          ground (arith, done, named, rep.holds (identifier t)),
          record {
            cached = rep.cached;
            lives = up;
            holds = λ j. ground (
              arith,
              named,
              stores (make_key settings j),
              eq_text-make_key settings (identifier t) j,
              rep.holds (identifier t),
              rep.holds j,
            );
          },
        )
  ]

  implements : (r : Request T) (w : World C S) (f : Entities T) → Holds w f → Implements r w f
  implements (find i) = find-Implements i
  implements (add t) = add-Implements t
  implements (change t) = change-Implements t
  implements (remove i) = remove-Implements i

  -- The repository refines a map from identifiers to entities. Assumed are a setting without a
  -- TTL, a server that answers every command as Redis documents `GET`, `SET NX`, `SET XX` and
  -- `DEL` of values that do not expire, and hooks and JSON that raise nothing: every entity has
  -- fields and a text, and reading the text gives an entity, which need not be the same (by the
  -- hooks of the base class it is a dict where an object was stored). Where a process represents a
  -- map (a client in its cache, that server, the texts of the map's entities under their keys),
  -- any sequence of `get`, `create`, `update` and `delete` returns and raises, call by call, what
  -- the map's operations do, `get` returning the entity that is read back of the stored one's
  -- text, and the process it leaves represents the map that they leave.
  pub perform_all_refines :
      (rs : List (Request T)) (w : World C S) (f : Entities T)
      → Holds w f
      → ((perform_all d m settings rs w).0 ≡ (respond_all d m settings identifier read_back rs f).0)
        × Holds
            (perform_all d m settings rs w).1
            (respond_all d m settings identifier read_back rs f).1
  unfolding perform_all respond_all
  perform_all_refines [] w f rep = (refl, rep)
  perform_all_refines (r ∷ rs) w f rep =
      let (w', p, rep') = implements r w f rep in
      let (q, rep'') =
        perform_all_refines rs w' (respond d m settings identifier read_back r f).1 rep' in
      (ground (arith, p, q), rw p rep'')
