-- ===== src/Dict/Keys.antt =====
-- `==` of the tuples that the caches of the adapters have as their keys, each from those of its parts.
use openframe_adapters.Prelude.{
  List, [], ◌∷◌, ℕ, ◌≡◌, ◌↔◌, Bool, true, false, ◌&&◌, not, Option, none, some, ◌==◌, arith,
}
use openframe_adapters.Dict.{Eq}

module _ {A B : Type 0} (ea : Eq A) (eb : Eq B) where
  abbrev pub pair_beq : A × B → A × B → Bool
  pair_beq x y = ea.beq x.0 y.0 && eb.beq x.1 y.1

  pub pair_iff : (x y : A × B) → (pair_beq x y ≡ true) ↔ (x ≡ y)
  pair_iff x y = ground (arith, ea.beq_iff x.0 y.0, eb.beq_iff x.1 y.1)

  abbrev pub pair_eq : Eq (A × B)
  pair_eq = record { beq = pair_beq; beq_iff = pair_iff }

module _ {A : Type 0} (ea : Eq A) where
  abbrev pub option_beq : Option A → Option A → Bool
  option_beq none none = true
  option_beq none (some y) = false
  option_beq (some x) none = false
  option_beq (some x) (some y) = ea.beq x y

  pub option_iff : (x y : Option A) → (option_beq x y ≡ true) ↔ (x ≡ y)
  option_iff none none = ground arith
  option_iff none (some y) = ground arith
  option_iff (some x) none = ground arith
  option_iff (some x) (some y) = ground (arith, ea.beq_iff x y)

  abbrev pub option_eq : Eq (Option A)
  option_eq = record { beq = option_beq; beq_iff = option_iff }

abbrev pub bool_beq : Bool → Bool → Bool
bool_beq true b = b
bool_beq false b = not b

pub bool_iff : (a b : Bool) → (bool_beq a b ≡ true) ↔ (a ≡ b)
bool_iff true b = ground arith
bool_iff false b = ground arith

abbrev pub bool_eq : Eq Bool
bool_eq = record { beq = bool_beq; beq_iff = bool_iff }

pub nat_iff : (a b : ℕ) → ((a == b) ≡ true) ↔ (a ≡ b)
nat_iff a b = ground arith

abbrev pub nat_eq : Eq ℕ
nat_eq = record { beq = ◌==◌; beq_iff = nat_iff }

module _ {A : Type 0} (ea : Eq A) where
  abbrev pub list_beq : List A → List A → Bool
  list_beq [] [] = true
  list_beq [] (y ∷ ys) = false
  list_beq (x ∷ xs) [] = false
  list_beq (x ∷ xs) (y ∷ ys) = ea.beq x y && list_beq xs ys

  pub list_iff : (xs ys : List A) → (list_beq xs ys ≡ true) ↔ (xs ≡ ys)
  list_iff [] [] = ground arith
  list_iff [] (y ∷ ys) = ground arith
  list_iff (x ∷ xs) [] = ground arith
  list_iff (x ∷ xs) (y ∷ ys) = ground (arith, ea.beq_iff x y, list_iff xs ys)

  abbrev pub list_eq : Eq (List A)
  list_eq = record { beq = list_beq; beq_iff = list_iff }
