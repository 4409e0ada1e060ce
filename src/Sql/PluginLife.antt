-- ===== src/Sql/PluginLife.antt =====
-- The life of a plugin of a SQL database, with a table and without one.
use openframe_adapters.Prelude.{ℕ, ◌≡◌, Text, [], ◌∷◌, arith, ◌⊎◌, inl, inr, refl}
use openframe_adapters.Effect.{ok, raised}
use openframe_adapters.Effect.Errors.{runtime_error, stopped}
use openframe_adapters.Lifecycle.{fresh, initialize_with, shutdown_with, get_held}
use openframe_adapters.Sql.Plugin.{
  Backend, Session, connect, connect_table, connect_pool, initialize, shutdown, get_repository,
}

text_cases : (t : Text) → (t ≡ []) ⊎ (c : ℕ) × (cs : Text) × (t ≡ c ∷ cs)
text_cases [] = inl refl
text_cases (c ∷ cs) = inr (c, cs, refl)

module _ {C W R X : Type 0} (self : Backend C W R X) where
  -- What the getter gives in `s`, and what `shutdown` does there.
  abbrev pub HasStarted : Text → Session self → Type 0
  HasStarted (c ∷ cs) s = get_repository s.0 ≡ self.new_repository
  HasStarted [] s =
      (get_repository {X = X} s.0 ≡ raised runtime_error)
      × (shutdown self s ≡ (ok tt, (record s.0 { status = stopped }, s.1)))

  -- After an `initialize` of a new plugin of MySQL, MariaDB or CockroachDB that returns: with a
  -- table, `get_repository` returns what its class makes of its settings and table; without one,
  -- `get_repository` raises a RuntimeError, and `shutdown` returns and changes nothing but the
  -- status, so that the pool that `initialize` opened is not closed.
  pub initialize_by_table :
      (w : W) {s : Session self} → initialize self (fresh, w) ≡ (ok tt, s) → HasStarted self.table s
  unfolding initialize initialize_with connect connect_table connect_pool get_repository get_held
      shutdown shutdown_with
  initialize_by_table w done = elim (text_cases self.table) [
    | inl unnamed ↦ rw unnamed (ground arith, ground arith)
    | inr (c, cs, named) ↦ rw named (ground arith)
  ]
