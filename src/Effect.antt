-- ===== src/Effect.antt =====
-- An `async` method over a world of type `W`: it returns or raises, and what it wrote stays
-- written. `return`, `raise`, `try`/`except` and `try`/`finally` of Python as the adapters use them.
pub mod Errors
pub mod Objects
pub mod Iteration
pub mod Loops
use openframe_adapters.Prelude.{◌≡◌, refl, ◌⊎◌, inl, inr, arith}

pub data Outcome (E A : Type 0) : Type 0 where
  ok : A → Outcome E A
  raised : E → Outcome E A

abbrev pub Action : Type 0 → Type 0 → Type 0 → Type 0
Action W E A = W → Outcome E A × W

module _ {W E A : Type 0} where
  abbrev pub pure : A → Action W E A
  pure a w = (ok a, w)

  abbrev pub raise : E → Action W E A
  raise e w = (raised e, w)

  abbrev pub gets : (W → A) → Action W E A
  gets f w = (ok (f w), w)

  -- `try: m  except ... as exc: handler`; the handler raises again what it does not catch.
  abbrev pub catch : Action W E A → (E → Action W E A) → Action W E A
  catch m handler w = let (r, w') = m w in elim r [ ok a ↦ (ok a, w') | raised e ↦ handler e w' ]

  -- `try: m  finally: last`; an exception of `last` replaces the outcome of `m`.
  abbrev pub finally : Action W E A → Action W E (Unit {0}) → Action W E A
  finally m last w =
      let (r, w') = m w in
      let (q, w'') = last w' in elim q [ ok _ ↦ (r, w'') | raised e ↦ (raised e, w'') ]

module _ {W E : Type 0} where
  abbrev pub modify : (W → W) → Action W E (Unit {0})
  modify f w = (ok tt, f w)

module _ {W E A B : Type 0} where
  infixl 5 ◌>>=◌ ◌>>◌
  abbrev pub ◌>>=◌ : Action W E A → (A → Action W E B) → Action W E B
  ◌>>=◌ m f w = let (r, w') = m w in elim r [ ok a ↦ f a w' | raised e ↦ (raised e, w') ]

  abbrev pub ◌>>◌ : Action W E A → Action W E B → Action W E B
  m >> n = m >>= λ _. n

pub Outcome-cases :
    {E A : Type 0} (o : Outcome E A) → ((a : A) × (o ≡ ok a)) ⊎ ((e : E) × (o ≡ raised e))
Outcome-cases (ok a) = inl (a, refl)
Outcome-cases (raised e) = inr (e, refl)

module _ {W E A B : Type 0} (m : Action W E A) (f : A → Action W E B) (w : W) where
  -- The first part of a `do` block has returned.
  pub bind-step : {a : A} {u : W} → m w ≡ (ok a, u) → (m >>= f) w ≡ f a u
  bind-step h = ground arith

  -- How a `do` block of two parts has raised.
  pub bind-raised :
      {e : E} {w' : W}
      → (m >>= f) w ≡ (raised e, w')
      → (m w ≡ (raised e, w')) ⊎ ((a : A) × (u : W) × (m w ≡ (ok a, u)) × (f a u ≡ (raised e, w')))
  bind-raised h = elim (Outcome-cases (m w).0) [
    | inl (a, p) ↦ inr (a, (m w).1, ground arith, ground arith)
    | inr (x, p) ↦ inl (ground arith)
  ]

  -- How a `do` block of two parts has returned.
  pub bind-ok :
      {b : B} {w' : W}
      → (m >>= f) w ≡ (ok b, w')
      → (a : A) × (u : W) × (m w ≡ (ok a, u)) × (f a u ≡ (ok b, w'))
  bind-ok h = elim (Outcome-cases (m w).0) [
    | inl (a, p) ↦ (a, (m w).1, ground arith, ground arith)
    | inr (x, p) ↦ absurd (ground arith)
  ]

-- The same of a call that has run, with the world that it left.
pub ran-cases :
    {W E A : Type 0} (r : Outcome E A × W)
    → ((a : A) × (r ≡ (ok a, r.1))) ⊎ ((e : E) × (r ≡ (raised e, r.1)))
ran-cases (ok a, w) = inl (a, refl)
ran-cases (raised e, w) = inr (e, refl)
