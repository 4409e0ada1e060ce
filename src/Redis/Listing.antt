-- ===== src/Redis/Listing.antt =====
-- `list`: the total, and how many entities a page has.
use openframe_adapters.Prelude.{
  ℕ, ◌≡◌, ◌≤◌, ◌-◌, min, some, none, arith, List, [], ◌∷◌, ◌++◌, Text, codes, Option, length,
  length-take, List-cases, drop, length-drop, inl, inr, refl, suc, ap, sym, ◌∙◌,
}
use openframe_adapters.Effect.{ok, Action, ◌>>=◌, pure, bind-ok, bind-step, ran-cases}
use openframe_adapters.Effect.Errors.{Failure}
use openframe_adapters.Dict.{lookup}
use openframe_adapters.Redis.Driver.{Driver, RedisSettings}
use openframe_adapters.Redis.Connection.{key_eq, World, cache_key, translate, get_redis_client}
use openframe_adapters.Redis.Keys.{Mapping, insert_key, sort_keys, page_keys}
use openframe_adapters.Redis.Repository.{list, page, decode, decode_all, reraise}
use openframe_adapters.Redis.Cache.{get_redis_client_hit}

length-insert_key : (k : Text) (l : List Text) → length (insert_key k l) ≡ suc (length l)
unfolding insert_key
length-insert_key k [] = refl
length-insert_key k (j ∷ l) = ground (arith, length-insert_key k l)

length-sort_keys : (l : List Text) → length (sort_keys l) ≡ length l
unfolding sort_keys
length-sort_keys [] = refl
length-sort_keys (k ∷ l) = omega (arith, length-insert_key k (sort_keys l), length-sort_keys l)

length-page_keys :
    (limit offset : ℕ) (l : List Text)
    → length (page_keys limit offset l) ≡ min limit (length l - offset)
unfolding page_keys
length-page_keys limit offset l = omega (
  arith,
  length-take limit (drop offset (sort_keys l)),
  length-drop offset (sort_keys l),
  length-sort_keys l,
)

module _ {C S X T : Type 0} (d : Driver C S X) (m : Mapping T X) (settings : RedisSettings) where
  length-decode_all :
      (vs : List (Option Text)) (w : World C S) {es : List T} {w' : World C S}
      → decode_all d m settings vs w ≡ (ok es, w')
      → length es ≤ length vs
  unfolding decode_all
  length-decode_all [] w h = ground arith
  length-decode_all (none ∷ vs) w h = omega (arith, length-decode_all vs w h)
  length-decode_all (some v ∷ vs) w h =
      let (e, u, p, q) =
        bind-ok (decode d m settings v) (λ a. decode_all d m settings vs >>= λ as_. pure (a ∷ as_))
          w h in
      let (es', u', p', q') = bind-ok (decode_all d m settings vs) (λ as_. pure (e ∷ as_)) u q in
      ground (arith, length-decode_all vs u p')

  -- Documented: MGET replies with one value for each key.
  abbrev MgetReplies : Type 0
  MgetReplies =
      (c : C) (ks : List Text) (s : S) (vs : List (Option Text)) (s' : S)
      → d.mget c ks s ≡ (ok vs, s')
      → length vs ≡ length ks

  module _ (limit offset : ℕ) {c : C} (w : World C S) {keys : List Text} {s : S}
      (replies : MgetReplies) (cached : lookup (cache_key settings) w.client_cache ≡ some c)
      (scanned : d.scan_iter c (settings.redis_key_prefix ++ codes ":*") w.server
        ≡ (ok keys, s)) where
    page_size :
        {vs : List (Option Text)} {total : ℕ} {w' : World C S}
        → translate (reraise d settings "list") (page d m settings limit offset c) w
          ≡ (ok (vs, total), w')
        → (total ≡ length keys) × (length vs ≡ length (page_keys limit offset keys))
    unfolding page
    page_size h = elim (List-cases (page_keys limit offset keys)) [
      | inl none_left ↦ ground (arith, ap length none_left)
      | inr (k, ks, e) ↦ elim (ran-cases (d.mget c (k ∷ ks) s)) [
        | inl (vs', got) ↦ ground (arith, replies c (k ∷ ks) s vs' _ got, ap length e)
        | inr (x, lost) ↦ absurd (ground arith)
      ]
    ]

    -- A `list` that returns, with MGET replying one value for each key: the total is the number of
    -- keys that SCAN yields, and the page has at most `limit` entities and at most those that are
    -- left behind the offset.
    pub list_bounds :
        {es : List T} {total : ℕ} {w' : World C S}
        → list d m settings limit offset w ≡ (ok (es, total), w')
        → (total ≡ length keys) × (length es ≤ min limit (length keys - offset))
    unfolding list
    list_bounds h =
        let listed = sym (bind-step (get_redis_client d settings) in_page w hit) ∙ h in
        let ((vs, n), u, p, rest) = bind-ok (paged c) decoded w listed in
        let (es', u', q, done) = bind-ok (decode_all d m settings vs) (λ a. pure (a, n)) u rest in
        ground (arith, page_size p, length-decode_all vs u q, length-page_keys limit offset keys)
      where
        paged : C → Action (World C S) (Failure X) (List (Option Text) × ℕ)
        paged c' = translate (reraise d settings "list") (page d m settings limit offset c')

        decoded : List (Option Text) × ℕ → Action (World C S) (Failure X) (List T × ℕ)
        decoded (vs, n) = decode_all d m settings vs >>= λ a. pure (a, n)

        in_page : C → Action (World C S) (Failure X) (List T × ℕ)
        in_page c' = paged c' >>= decoded

        hit : get_redis_client d settings w ≡ (ok c, w)
        hit = get_redis_client_hit d settings w cached
