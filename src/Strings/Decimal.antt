-- ===== src/Strings/Decimal.antt =====
-- Numbers in decimal are read back.
use frog_quant.Prelude.{
  ℕ, zero, suc, ◌+◌, ◌-◌, ◌*◌, ◌/◌, ◌%◌, ◌^◌, ◌≤◌, ◌<◌, ◌≡◌, refl, false, some, [], ◌∷◌, ◌++◌, Text,
  arith, All, IsDigit, show_nat, show_nat-IsDigit, digits_from,
}
use frog_quant.Strings.{is_digit, is_empty, take_while, drop_while}
use frog_quant.Strings.Numbers.{digits_value, read_number, stoull}

digits_value-append :
    (acc : ℕ) (s t : Text) → digits_value acc (s ++ t) ≡ digits_value (digits_value acc s) t
unfolding digits_value
digits_value-append acc [] t = refl
digits_value-append acc (c ∷ s) t = digits_value-append (acc * 10 + (c - 48)) s t

digits_value-digits_from : (fuel n : ℕ) → n ≤ fuel → digits_value 0 (digits_from fuel n) ≡ n
unfolding digits_value digits_from
digits_value-digits_from zero n h = omega arith
digits_value-digits_from (suc fuel) n h = ground (
  arith,
  digits_value-append 0 (digits_from fuel (n / 10)) ((n % 10 + 48) ∷ []),
  digits_value-digits_from fuel (n / 10),
)

pub digits_value-show_nat : (n : ℕ) → digits_value 0 (show_nat n) ≡ n
unfolding show_nat
digits_value-show_nat n = digits_value-digits_from n n (omega arith)

take_while-digits : (s : Text) → All IsDigit s → take_while is_digit s ≡ s
unfolding take_while
take_while-digits [] h = refl
take_while-digits (c ∷ s) h = ground (arith, take_while-digits s)

-- A text of digits only.
pub read_number-digits :
    (s : Text) → All IsDigit s → is_empty s ≡ false → read_number s ≡ some (false, digits_value 0 s)
unfolding read_number drop_while
read_number-digits [] h e = cc
read_number-digits (c ∷ s) h e = ground (arith, take_while-digits (c ∷ s))

is_empty-append : (s : Text) (c : ℕ) → is_empty (s ++ c ∷ []) ≡ false
is_empty-append [] c = refl
is_empty-append (b ∷ s) c = refl

pub is_empty-show_nat : (n : ℕ) → is_empty (show_nat n) ≡ false
unfolding show_nat digits_from
is_empty-show_nat zero = refl
is_empty-show_nat (suc n) =
    ground (arith, is_empty-append (digits_from n (suc n / 10)) (suc n % 10 + 48))

pub stoull-show_nat : (n : ℕ) → n < 2 ^ 64 → stoull (show_nat n) ≡ some n
unfolding stoull
stoull-show_nat n h = ground (
  arith,
  read_number-digits (show_nat n) (show_nat-IsDigit n) (is_empty-show_nat n),
  digits_value-show_nat n,
)
