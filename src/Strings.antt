-- ===== src/Strings.antt =====
-- `std::string` and `std::getline` as the program uses them. A position in a string is the rest of
-- the string from there on; `npos` is `none`.
pub mod Numbers
pub mod Search
pub mod Keys
pub mod Values
pub mod Split
pub mod Decimal
use mathlib.Core.Option
use frog_quant.Prelude.{
  ℕ, zero, suc, ◌-◌, ◌+◌, Bool, true, false, ◌&&◌, ◌||◌, not, Option, none, some, List, [], ◌∷◌,
  ◌++◌, Text, if◌then◌else◌, ◌==◌, leb, take, drop, length,
}

-- `s.compare(0, t.size(), t) == 0`, and `s.rfind(t, 0) == 0`
unfoldable pub starts_with : Text → Text → Bool
starts_with [] s = true
starts_with (c ∷ t) [] = false
starts_with (c ∷ t) (b ∷ s) = c == b && starts_with t s

-- `s.find(t)`, from the first occurrence on
unfoldable pub find : Text → Text → Option Text
unfolding starts_with
find t [] = if starts_with t [] then some [] else none
find t (c ∷ s) = if starts_with t (c ∷ s) then some (c ∷ s) else find t s

-- `s.find(c)`, from the first occurrence on
unfoldable pub find_char : ℕ → Text → Option Text
find_char c [] = none
find_char c (b ∷ s) = if b == c then some (b ∷ s) else find_char c s

-- The text in front of the first character that passes the test, if there is one.
unfoldable pub before : (ℕ → Bool) → Text → Option Text
before test [] = none
before test (c ∷ s) = if test c then some [] else Option.map {A = Text} (λ r. c ∷ r) (before test s)

unfoldable pub take_while : (ℕ → Bool) → Text → Text
take_while test [] = []
take_while test (c ∷ s) = if test c then c ∷ take_while test s else []

unfoldable pub drop_while : (ℕ → Bool) → Text → Text
drop_while test [] = []
drop_while test (c ∷ s) = if test c then drop_while test s else c ∷ s

abbrev pub is_empty : Text → Bool
is_empty [] = true
is_empty (c ∷ s) = false

-- `std::isspace` in the C locale
abbrev pub is_space : ℕ → Bool
is_space c = c == 32 || (leb 9 c && leb c 13)

-- `std::tolower` in the C locale
abbrev pub lower_char : ℕ → ℕ
lower_char c = if leb 65 c && leb c 90 then c + 32 else c

abbrev pub is_digit : ℕ → Bool
is_digit c = leb 48 c && leb c 57

-- The lines that `std::getline` reads one after another.
add_char : ℕ → List Text → List Text
add_char c [] = (c ∷ []) ∷ []
add_char c (l ∷ ls) = (c ∷ l) ∷ ls

unfoldable pub lines_of : Text → List Text
unfolding add_char
lines_of [] = []
lines_of (c ∷ s) = let rest = lines_of s in if c == 10 then [] ∷ rest else add_char c rest
