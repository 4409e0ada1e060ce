-- ===== src/Effect/Objects.antt =====
-- Methods of one object over the world outside: what they call, and the handlers that they share.
use openframe_adapters.Prelude.{Bool, if◌then◌else◌}
use openframe_adapters.Effect.{Outcome, ok, raised, Action, pure, raise, modify, catch}
use openframe_adapters.Effect.Errors.{Failure, outside, is_exception}

module _ {P S X A : Type 0} where
  -- A call of the driver reaches the world alone; its exceptions are outside ones.
  abbrev pub call : Action S X A → Action (P × S) (Failure X) A
  call m w =
      let (r, s) = m w.1 in
      elim r [ ok a ↦ (ok a, (w.0, s)) | raised x ↦ (raised (outside x), (w.0, s)) ]

  -- A call of json or of a hook that a subclass overrides.
  abbrev pub hook : Outcome X A → Action (P × S) (Failure X) A
  hook o w = elim o [ ok a ↦ (ok a, w) | raised x ↦ (raised (outside x), w) ]

module _ {P S X : Type 0} where
  -- Assignments to attributes of the object.
  abbrev pub update : (P → P) → Action (P × S) (Failure X) (Unit {0})
  update f = modify (λ w. (f w.0, w.1))

  -- `try: …  except Exception: log`, given which outside exceptions that catches.
  abbrev pub ignoring :
      (X → Bool) → Action (P × S) (Failure X) (Unit {0}) → Action (P × S) (Failure X) (Unit {0})
  ignoring catches m = catch m (λ e. if is_exception catches e then pure tt else raise e)

module _ {P S X A : Type 0} where
  -- `except` clauses that see only outside exceptions: `handler` says what is raised instead.
  abbrev pub translate :
      (X → Failure X) → Action (P × S) (Failure X) A → Action (P × S) (Failure X) A
  translate handler m =
      catch m (λ e. elim e [ outside x ↦ raise (handler x) | other ↦ raise other ])
