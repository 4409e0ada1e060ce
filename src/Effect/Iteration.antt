-- ===== src/Effect/Iteration.antt =====
-- What an asynchronous iterator over messages yields, turn by turn.
use openframe_adapters.Prelude.{Bool, true, false, List, [], ◌∷◌}

-- One turn: a message, or an exception. The Boolean says whether another task called `close` of the
-- consumer during the wait.
pub data Arrival (M X : Type 0) : Type 0 where
  delivers : Bool → M → Arrival M X
  breaks : Bool → X → Arrival M X

-- The messages that arrive before another task calls `close` and before the iterator breaks off.
abbrev pub taken : {M X : Type 0} → List (Arrival M X) → List M
taken [] = []
taken (breaks closed x ∷ rest) = []
taken (delivers true m ∷ rest) = []
taken (delivers false m ∷ rest) = m ∷ taken rest
