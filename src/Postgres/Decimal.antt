-- ===== src/Postgres/Decimal.antt =====
-- The decimal digits in placeholders and status tags name one number each.
use openframe_adapters.Prelude.{
  ℕ, suc, zero, ◌+◌, ◌-◌, ◌≡◌, ◌≤◌, refl, sym, ap, ◌∙◌, [], ◌∷◌, ◌++◌, Text, arith,
}
use Prim.Native.Nat.{◌/◌, ◌%◌, ◌*◌}
use openframe_adapters.Postgres.Statements.{decimal_from, decimal}

-- The number that digits stand for, `n` being that of the digits before them.
unfoldable pub value_from : ℕ → Text → ℕ
value_from n [] = n
value_from n (c ∷ cs) = value_from (n * 10 + (c - 48)) cs

value_from-append :
    (n : ℕ) (xs ys : Text) → value_from n (xs ++ ys) ≡ value_from (value_from n xs) ys
unfolding value_from
value_from-append n [] ys = refl
value_from-append n (x ∷ xs) ys = value_from-append (n * 10 + (x - 48)) xs ys

value_from-decimal_from : (f n : ℕ) → n ≤ f → value_from 0 (decimal_from (suc f) n) ≡ n
unfolding decimal_from value_from
value_from-decimal_from zero n h = ground arith
value_from-decimal_from (suc f) n h =
    let shorter : n / 10 ≤ f = omega arith in
    ground (
      arith,
      value_from-append 0 (decimal_from (suc f) (n / 10)) ((48 + n % 10) ∷ []),
      value_from-decimal_from f (n / 10) shorter,
    )

-- The fuel is enough: the digits of a number stand for it.
pub value_from-decimal : (n : ℕ) → value_from 0 (decimal n) ≡ n
unfolding decimal
value_from-decimal n = value_from-decimal_from n n (omega arith)

pub decimal_injective : (n m : ℕ) → decimal n ≡ decimal m → n ≡ m
decimal_injective n m p = sym (value_from-decimal n) ∙ (ap (value_from 0) p ∙ value_from-decimal m)
