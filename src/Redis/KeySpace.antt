-- ===== src/Redis/KeySpace.antt =====
-- The keys of the repositories that share a Redis server: when two of them meet.
use openframe_adapters.Prelude.{
  ◌≡◌, ◌≢◌, ◌++◌, Text, codes, append_cancel, false, eq_text, eq_text→eq, Bool-cases, inl, inr,
}
use mathlib.Core.List.{append_assoc}
use openframe_adapters.Redis.Driver.{RedisSettings}
use openframe_adapters.Redis.Keys.{make_key}

-- Within one repository different identifiers have different keys.
pub make_key_injective :
    (settings : RedisSettings) (i j : Text) → make_key settings i ≡ make_key settings j → i ≡ j
unfolding make_key
make_key_injective settings i j h =
    append_cancel (codes ":") i j
      (append_cancel settings.redis_key_prefix (codes ":" ++ i) (codes ":" ++ j) h)

pub make_key_ne :
    (settings : RedisSettings) (i j : Text)
    → i ≢ j
    → eq_text (make_key settings i) (make_key settings j) ≡ false
make_key_ne settings i j ne =
    elim (Bool-cases (eq_text (make_key settings i) (make_key settings j))) [
      | inl same ↦ absurd (ne (make_key_injective settings i j (eq_text→eq _ _ same)))
      | inr other ↦ other
    ]

-- A second repository whose prefix is the first's, a colon and `rest`.
pub record Nests (rest : Text) (outer inner : RedisSettings) : Type 0 where
  pub prefix : inner.redis_key_prefix ≡ outer.redis_key_prefix ++ (codes ":" ++ rest)

-- Every entity of the inner repository is one of the outer, under another identifier.
pub make_key_nested :
    (rest : Text) (outer inner : RedisSettings) (i : Text)
    → Nests rest outer inner
    → make_key inner i ≡ make_key outer (rest ++ (codes ":" ++ i))
unfolding make_key
make_key_nested rest outer inner i n = simp (n.prefix, append_assoc)
