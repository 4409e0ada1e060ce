-- ===== src/Lifecycle/SingleLife.antt =====
-- How `initialize` of the plugin of one repository ends, and what its getter then does.
use openframe_adapters.Prelude.{◌≡◌, arith, inl, inr}
use openframe_adapters.Effect.{Outcome, ok, raised, Outcome-cases}
use openframe_adapters.Effect.Errors.{Failure, runtime_error}
use openframe_adapters.Lifecycle.Defs.{get_held, initialize_with}
use openframe_adapters.Lifecycle.Checks.{checked}
use openframe_adapters.Lifecycle.Single.{Backend, Session, connect, initialize}

module _ {W R X : Type 0} (self : Backend W R X) where
  -- What the getter does after an `initialize` that ended so.
  abbrev pub given_out : Outcome (Failure X) (Unit {0}) → Outcome (Failure X) R
  given_out (ok _) = self.new_repository
  given_out (raised e) = raised runtime_error

  -- After `initialize` of a plugin of DynamoDB, MongoDB, ChromaDB or FalkorDB in any state,
  -- `get_repository` returns the repository that the class makes of its settings if `initialize`
  -- returned, and raises a RuntimeError if it raised.
  pub initialize_gives_out :
      (s : Session self) → get_held (initialize self s).1.0 ≡ given_out (initialize self s).0
  unfolding initialize initialize_with connect checked get_held
  initialize_gives_out s = elim (Outcome-cases self.new_repository) [
    | inl (r, p) ↦ ground (arith, p)
    | inr (e, p) ↦ ground (arith, p)
  ]
