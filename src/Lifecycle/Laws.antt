-- ===== src/Lifecycle/Laws.antt =====
-- The life of a plugin: after any calls, its status and what it holds agree.
use openframe_adapters.Prelude.{
  Bool-cases, refl, ap, ◌∙◌, inl, inr, true, some, if◌then◌else◌, false, arith, ◌≡◌, Bool, List, [],
  ◌∷◌,
}
use openframe_adapters.Effect.{Outcome, ran-cases, raised, ok, Action}
use openframe_adapters.Effect.Errors.{
  PluginStatus, Failure, is_exception, failed, stopped, is_ready, plugin_status, initialized, ready,
  PluginHealth,
}
use openframe_adapters.Lifecycle.Defs.{get_held, Slot, initialize_with, shutdown_with, health_with}

-- A plugin that is READY holds its repository or producer.
abbrev pub IsSound : {R : Type 0} → Slot R → Type 0
IsSound {R} s = s.status ≡ ready → (r : R) × (s.held ≡ some r)

abbrev pub returned : {E A : Type 0} → Outcome E A → Bool
returned (ok a) = true
returned (raised e) = false

ready_status : (st : PluginStatus) → is_ready st ≡ true → st ≡ ready
ready_status ready h = refl
ready_status st h = cc

returned-get_held_slot :
    {R : Type 0} (X : Type 0) (s : Slot R)
    → IsSound s
    → returned (get_held {X = X} s) ≡ is_ready s.status
unfolding get_held
returned-get_held_slot X s sound = elim (Bool-cases (is_ready s.status)) [
  | inl p ↦ let (r, q) = sound (ready_status s.status p) in ground (arith, p, q)
  | inr p ↦ ground arith
]

pub data Call : Type 0 where
  initialize shutdown health : Call

-- What a body must do: hold something where it returns, and leave the status alone.
pub record Holds {R W X : Type 0} (body : Action (Slot R × W) (Failure X) (Unit {0})) : Type 0 where
  pub holds :
      (s : Slot R × W) (s' : Slot R × W) → body s ≡ (ok tt, s') → (r : R) × (s'.0.held ≡ some r)
  pub keeps : (s : Slot R × W) → (body s).1.0.status ≡ s.0.status

module _ {R W X : Type 0} (catches : X → Bool) (body : Action (Slot R × W) (Failure X) (Unit {0}))
    (close : R → Action W (Failure X) (Unit {0}))
    (check : R → Action W (Failure X) (PluginHealth X)) where
  -- One call, whatever it returns or raises, and a sequence of calls.
  unfoldable pub step : Call → Slot R × W → Slot R × W
  step initialize s = (initialize_with catches body s).1
  step shutdown s = (shutdown_with catches close s).1
  step health s = (health_with catches check s).1

  unfoldable pub run : List Call → Slot R × W → Slot R × W
  run [] s = s
  run (c ∷ cs) s = run cs (step c s)

  -- How `initialize` ends: READY, or FAILED with the exception passed on; what `except Exception`
  -- does not catch leaves INITIALIZED.
  pub initialize_status :
      Holds body
      → (s : Slot R × W)
      → let (r, s') = initialize_with catches body s in
        s'.0.status ≡ elim r [
          | ok _ ↦ ready
          | raised e ↦ if is_exception catches e then failed else initialized
        ]
  unfolding initialize_with
  initialize_status h s = ground (arith, h.keeps (record s.0 { status = initialized }, s.1))

  -- `shutdown` ends in STOPPED, and raises only what `except Exception` does not catch.
  pub shutdown_stops :
      (s : Slot R × W) → (shutdown_with catches close s).1.0 ≡ record s.0 { status = stopped }
  unfolding shutdown_with
  shutdown_stops s = ground arith

  pub shutdown_raises :
      (s : Slot R × W) (e : Failure X)
      → (shutdown_with catches close s).0 ≡ raised e
      → is_exception catches e ≡ false
  unfolding shutdown_with
  shutdown_raises s e h = ground arith

  -- `health` leaves the plugin alone, and raises only what `except Exception` does not catch.
  pub health_keeps : (s : Slot R × W) → (health_with catches check s).1.0 ≡ s.0
  unfolding health_with
  health_keeps s = ground arith

  pub health_raises :
      (s : Slot R × W) (e : Failure X)
      → (health_with catches check s).0 ≡ raised e
      → is_exception catches e ≡ false
  unfolding health_with
  health_raises s e h = ground arith

  -- Of a plugin that is not READY `health` says FAILED with its status, and asks nobody.
  pub health_not_ready :
      (s : Slot R × W)
      → is_ready s.0.status ≡ false
      → health_with catches check s
        ≡ (ok (record { status = failed; message = plugin_status s.0.status }), s)
  unfolding health_with
  health_not_ready s h = ground arith

  -- Whether the last `initialize` or `shutdown` of the calls was an `initialize` that returned.
  unfoldable pub is_up : List Call → Bool → Slot R × W → Bool
  unfolding step
  is_up [] b s = b
  is_up (initialize ∷ cs) b s =
      is_up cs (returned (initialize_with catches body s).0) (step initialize s)
  is_up (shutdown ∷ cs) b s = is_up cs false (step shutdown s)
  is_up (health ∷ cs) b s = is_up cs b (step health s)

  step-IsSound : Holds body → (c : Call) (s : Slot R × W) → IsSound s.0 → IsSound (step c s).0
  unfolding step initialize_with
  step-IsSound h initialize s sound p =
      elim (ran-cases (body (record s.0 { status = initialized }, s.1))) [
        | inl (a, e) ↦ let (r, q) = h.holds _ _ e in (r, ground (arith, q))
        | inr (e, q) ↦ absurd (ground (arith, h.keeps (record s.0 { status = initialized }, s.1)))
      ]
  step-IsSound h shutdown s sound p = absurd (ground (arith, shutdown_stops s))
  step-IsSound h health s sound p =
      let (r, q) = sound (ground (arith, health_keeps s)) in (r, ground (arith, health_keeps s))

  run-IsSound : Holds body → (cs : List Call) (s : Slot R × W) → IsSound s.0 → IsSound (run cs s).0
  unfolding run
  run-IsSound h [] s sound = sound
  run-IsSound h (c ∷ cs) s sound = run-IsSound h cs (step c s) (step-IsSound h c s sound)

  is_ready-run :
      Holds body
      → (cs : List Call) (s : Slot R × W)
      → is_ready (run cs s).0.status ≡ is_up cs (is_ready s.0.status) s
  unfolding run is_up
  is_ready-run h [] s = refl
  is_ready-run h (initialize ∷ cs) s =
      is_ready-run h cs (step initialize s)
      ∙ ap (λ b. is_up cs b (step initialize s))
          (unfold step in ground (arith, initialize_status h s))
  is_ready-run h (shutdown ∷ cs) s =
      is_ready-run h cs (step shutdown s)
      ∙ ap (λ b. is_up cs b (step shutdown s)) (unfold step in ground (arith, shutdown_stops s))
  is_ready-run h (health ∷ cs) s =
      is_ready-run h cs (step health s)
      ∙ ap (λ b. is_up cs b (step health s)) (unfold step in ground (arith, health_keeps s))

  -- After any calls the getter returns exactly if the last `initialize` or `shutdown` was an
  -- `initialize` that returned.
  pub returned-get_held :
      Holds body
      → (cs : List Call) (s : Slot R × W) → IsSound s.0
      → returned (get_held {X = X} (run cs s).0) ≡ is_up cs (is_ready s.0.status) s
  returned-get_held h cs s sound =
      returned-get_held_slot X (run cs s).0 (run-IsSound h cs s sound) ∙ is_ready-run h cs s
