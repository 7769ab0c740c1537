-- ===== src/Strings/Numbers.antt =====
-- `std::stoi` and `std::stoull`, where `none` stands for the exception.
use frog_quant.Prelude.{
  ℕ, ◌+◌, ◌-◌, ◌*◌, ◌^◌, ◌%◌, ℤ, pos, ◌-ℤ◌, Bool, true, false, Option, none, some, [], ◌∷◌, Text,
  if◌then◌else◌, ◌==◌, leb, leb_ℤ, ◌&&◌,
}
use frog_quant.Strings.{is_space, is_digit, is_empty, take_while, drop_while}

unfoldable pub digits_value : ℕ → Text → ℕ
digits_value acc [] = acc
digits_value acc (c ∷ s) = digits_value (acc * 10 + (c - 48)) s

-- The sign and the digits in front of a text that begins with no white space.
abbrev split_sign : Text → Bool × Text
split_sign [] = (false, [])
split_sign (c ∷ s) =
    if c == b'-' then (true, s) else if c == b'+' then (false, s) else (false, c ∷ s)

-- Whether a number is negative, and its magnitude.
unfoldable pub read_number : Text → Option (Bool × ℕ)
unfolding digits_value take_while drop_while
read_number s =
    let (negative, rest) = split_sign (drop_while is_space s) in
    let digits = take_while is_digit rest in
    if is_empty digits then none else some (negative, digits_value 0 digits)

in_int : ℤ → Option ℤ
in_int n = if leb_ℤ (pos 0 -ℤ pos (2 ^ 31)) n && leb_ℤ n (pos (2 ^ 31 - 1)) then some n else none

unfoldable pub stoi : Text → Option ℤ
unfolding read_number in_int
stoi s = elim (read_number s) [
  | none ↦ none
  | some (negative, n) ↦ in_int (if negative then pos 0 -ℤ pos n else pos n)
]

-- A minus sign wraps the value around.
unfoldable pub stoull : Text → Option ℕ
unfolding read_number
stoull s = elim (read_number s) [
  | none ↦ none
  | some (negative, n) ↦
      if leb (2 ^ 64) n then none else some (if negative then (2 ^ 64 - n) % 2 ^ 64 else n)
]
