-- ===== src/Prelude/Texts.antt =====
-- A Python `str` as the list of its code points, with equality, order and prefixes.
use Prim.Native.Nat.{ℕ, compare, Ordering}
use Prim.Native.Char.{code}
use Prim.Native.String.{String}
use mathlib.Core.Path.{◌≡◌, refl}
use mathlib.Core.Bool.{◌||◌, Bool, true, false}
use mathlib.Core.List.{List, [], ◌∷◌, ◌++◌}
use native.Mathlib.Omega.{arith}
use openframe_adapters.Prelude.Tests.{◌==◌, if◌then◌else◌}

abbrev pub Text : Type 0
Text = List ℕ

-- The code points of a literal.
abbrev pub codes : String → Text
codes String.[] = []
codes (String.◌∷◌ c s) = code c ∷ codes s

abbrev pub eq_text : Text → Text → Bool
eq_text [] [] = true
eq_text [] (y ∷ ys) = false
eq_text (x ∷ xs) [] = false
eq_text (x ∷ xs) (y ∷ ys) = if x == y then eq_text xs ys else false

pub eq_text→eq : (xs ys : Text) → eq_text xs ys ≡ true → xs ≡ ys
eq_text→eq [] [] h = refl
eq_text→eq [] (y ∷ ys) h = cc
eq_text→eq (x ∷ xs) [] h = cc
eq_text→eq (x ∷ xs) (y ∷ ys) h = ground (arith, eq_text→eq xs ys)

pub eq_text_refl : (xs : Text) → eq_text xs xs ≡ true
eq_text_refl [] = refl
eq_text_refl (x ∷ xs) = ground (arith, eq_text_refl xs)

-- `xs <= ys`, by code points.
abbrev pub le_text : Text → Text → Bool
le_text [] ys = true
le_text (x ∷ xs) [] = false
le_text (x ∷ xs) (y ∷ ys) = elim (compare x y) [
  | Ordering.lt ↦ true
  | Ordering.eq ↦ le_text xs ys
  | Ordering.gt ↦ false
]

-- `ys.startswith(xs)`
abbrev pub starts_with : Text → Text → Bool
starts_with [] ys = true
starts_with (x ∷ xs) [] = false
starts_with (x ∷ xs) (y ∷ ys) = if x == y then starts_with xs ys else false

pub starts_with-append : (xs ys : Text) → starts_with xs (xs ++ ys) ≡ true
starts_with-append [] ys = refl
starts_with-append (x ∷ xs) ys = ground (arith, starts_with-append xs ys)

pub append_cancel : (p : Text) (xs ys : Text) → p ++ xs ≡ p ++ ys → xs ≡ ys
append_cancel [] xs ys h = h
append_cancel (c ∷ p) xs ys h = append_cancel p xs ys (cc)

pub le_text_total : (xs ys : Text) → le_text xs ys ≡ false → le_text ys xs ≡ true
le_text_total [] ys h = cc
le_text_total (x ∷ xs) [] h = refl
le_text_total (x ∷ xs) (y ∷ ys) h = ground (arith, le_text_total xs ys)

pub le_text_antisymm : (xs ys : Text) → le_text xs ys ≡ true → le_text ys xs ≡ true → xs ≡ ys
le_text_antisymm [] [] h k = refl
le_text_antisymm [] (y ∷ ys) h k = cc
le_text_antisymm (x ∷ xs) [] h k = cc
le_text_antisymm (x ∷ xs) (y ∷ ys) h k = ground (arith, le_text_antisymm xs ys)

pub le_text_trans :
    (xs ys zs : Text) → le_text xs ys ≡ true → le_text ys zs ≡ true → le_text xs zs ≡ true
le_text_trans [] ys zs h k = refl
le_text_trans (x ∷ xs) [] zs h k = cc
le_text_trans (x ∷ xs) (y ∷ ys) [] h k = cc
le_text_trans (x ∷ xs) (y ∷ ys) (z ∷ zs) h k = ground (arith, le_text_trans xs ys zs)

-- `phrase in text`
abbrev pub contains : Text → Text → Bool
contains [] phrase = starts_with phrase []
contains (t ∷ ts) phrase = starts_with phrase (t ∷ ts) || contains ts phrase
