-- ===== src/Effect/Loops.antt =====
-- `for x in xs: …` over a list.
use openframe_adapters.Prelude.{◌≡◌, refl, List, [], ◌∷◌, ◌++◌, arith}
use openframe_adapters.Effect.{ok, raised, Action, pure, ◌>>◌}

module _ {W E T : Type 0} (body : T → Action W E (Unit {0})) where
  unfoldable pub for_each : List T → Action W E (Unit {0})
  for_each [] = pure tt
  for_each (x ∷ xs) = do body x; for_each xs

  -- The loop over two lists is the loop over the first and then over the second.
  pub for_each-append :
      (xs ys : List T) (w : W) → for_each (xs ++ ys) w ≡ (for_each xs >> for_each ys) w
  unfolding for_each
  for_each-append [] ys w = refl
  for_each-append (x ∷ xs) ys w = ground (arith, for_each-append xs ys (body x w).1)

  -- Where the body raises for an element, the loop raises there and runs no further.
  pub for_each_stops :
      (xs : List T) (y : T) (ys : List T) (w : W) {w' w'' : W} {e : E}
      → for_each xs w ≡ (ok tt, w')
      → body y w' ≡ (raised e, w'')
      → for_each (xs ++ (y ∷ ys)) w ≡ (raised e, w'')
  unfolding for_each
  for_each_stops xs y ys w failed failing = ground (arith, for_each-append xs (y ∷ ys) w)
