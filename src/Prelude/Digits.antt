-- ===== src/Prelude/Digits.antt =====
-- The characters of a number in decimal.
use Prim.Native.Nat.{ℕ, zero, suc, ◌+◌, ◌/◌, ◌%◌, ◌≤◌, ◌<◌}
use mathlib.Core.List.{[], ◌∷◌}
use native.Mathlib.Omega.{arith}
use frog_quant.Prelude.Lists.{All, All-append}
use frog_quant.Prelude.Decimal.{show_nat, digits_from}

abbrev pub IsDigit : ℕ → Type 0
IsDigit b = (48 ≤ b) × (b < 58)

digits_from-IsDigit : (fuel n : ℕ) → All IsDigit (digits_from fuel n)
unfolding digits_from
digits_from-IsDigit zero n = (omega arith, tt)
digits_from-IsDigit (suc fuel) n = ground (
  arith,
  All-append IsDigit (digits_from fuel (n / 10)) ((n % 10 + 48) ∷ [])
      (digits_from-IsDigit fuel (n / 10)) (omega arith, tt),
)

pub show_nat-IsDigit : (n : ℕ) → All IsDigit (show_nat n)
unfolding show_nat
show_nat-IsDigit n = digits_from-IsDigit n n
