-- ===== src/Double/Fixed.antt =====
-- A type on which the model runs: whole millionths, with a NaN. It stands for no part of the
-- program, and shows that the laws assumed of `double` can be met together.
use mathlib.Core.Option
use frog_quant.Prelude.{
  Option, some, none, [], ◌∷◌, Text, bytes, show_nat, leb, ◌&&◌, true, ◌-◌, ℕ, ◌*◌, ◌/◌, ◌+◌, ◌^◌,
  ℤ, pos, negsuc, ◌+ℤ◌, ◌-ℤ◌, ◌*ℤ◌, ltb_ℤ, leb_ℤ, Bool, false, pos_part, neg_part, ◌==◌,
  if◌then◌else◌, arith, sub_ℕ,
}
use frog_quant.Double.{Double, DoubleText, IsOrdered, HasSigns}

pub data Fixed : Type 0 where
  nan : Fixed
  micro : ℤ → Fixed

abbrev unit : ℕ
unit = 1_000_000

abbrev lift : (ℤ → ℤ → Fixed) → Fixed → Fixed → Fixed
lift f (micro a) (micro b) = f a b
lift f _ _ = nan

abbrev test : (ℤ → ℤ → Bool) → Fixed → Fixed → Bool
test f (micro a) (micro b) = f a b
test f _ _ = false

-- Division of the magnitude, towards zero.
abbrev shrink : ℤ → ℕ → ℤ
shrink a n = sub_ℕ (pos_part a / n) (neg_part a / n)

abbrev quotient : ℤ → ℤ → Fixed
quotient a (pos n) = if n == 0 then nan else micro (shrink (a *ℤ pos unit) n)
quotient a (negsuc n) = micro (pos 0 -ℤ shrink (a *ℤ pos unit) (n + 1))

abbrev whole : Fixed → ℤ
whole nan = pos 0
whole (micro a) = shrink a unit

abbrev magnitude : Fixed → Fixed
magnitude nan = nan
magnitude (micro a) = micro (pos (pos_part a + neg_part a))

-- To the nearest whole number, a half away from zero.
abbrev nearest : Fixed → Fixed
nearest nan = nan
nearest (micro a) =
    micro (sub_ℕ ((pos_part a + 500_000) / unit * unit) ((neg_part a + 500_000) / unit * unit))

instance abbrev pub fixed_double : Double Fixed
fixed_double = record {
  lit = λ m e. micro (pos (m * unit / 10 ^ e));
  of_int = λ n. micro (n *ℤ pos unit);
  to_int = whole;
  to_u64 = λ x. pos_part (whole x);
  add = lift (λ a b. micro (a +ℤ b));
  sub = lift (λ a b. micro (a -ℤ b));
  mul = lift (λ a b. micro (shrink (a *ℤ b) unit));
  div = lift quotient;
  fabs = magnitude;
  round = nearest;
  lt = test ltb_ℤ;
  le = test leb_ℤ;
}

pub fixed_double-IsOrdered : IsOrdered Fixed
fixed_double-IsOrdered = ground arith

pub fixed_double-HasSigns : HasSigns Fixed
fixed_double-HasSigns = ground arith

-- Texts are the number of millionths in decimal.
unfoldable pub read_digits : ℕ → Text → Option ℕ
read_digits acc [] = some acc
read_digits acc (c ∷ s) = elim (leb 48 c && leb c 57) [
  | true ↦ read_digits (acc * 10 + (c - 48)) s
  | false ↦ none
]

unfoldable pub print : Fixed → Text
unfolding show_nat
print nan = bytes "nan"
print (micro (pos n)) = show_nat n
print (micro (negsuc n)) = b'-' ∷ show_nat (n + 1)

unfoldable pub read : Text → Option Fixed
unfolding read_digits
read [] = none
read (c ∷ s) =
    if c == b'-'
    then Option.map (λ n. micro (pos 0 -ℤ pos n)) (read_digits 0 s)
    else Option.map (λ n. micro (pos n)) (read_digits 0 (c ∷ s))

instance abbrev pub fixed_text : DoubleText Fixed
fixed_text = record {
  show = print;
  show_fixed = λ precision. print;
  to_string = print;
  stod = read;
}
