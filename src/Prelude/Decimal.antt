-- ===== src/Prelude/Decimal.antt =====
-- `operator<<` and `std::to_string` of an unsigned integer.
use Prim.Native.Nat.{ℕ, zero, suc, ◌+◌, ◌/◌, ◌%◌}
use mathlib.Core.List.{[], ◌∷◌, ◌++◌}
use frog_quant.Prelude.Tests.{ltb}
use mathlib.Core.Bool.{true, false}
use frog_quant.Prelude.Bytes.{Text}

-- The digits of `n`, most significant first; the fuel is `n` itself, which has fewer digits.
unfoldable pub digits_from : ℕ → ℕ → Text
digits_from zero n = (n % 10 + 48) ∷ []
digits_from (suc fuel) n = elim (ltb n 10) [
  | true ↦ (n + 48) ∷ []
  | false ↦ digits_from fuel (n / 10) ++ (n % 10 + 48) ∷ []
]

unfoldable pub show_nat : ℕ → Text
unfolding digits_from
show_nat n = digits_from n n
