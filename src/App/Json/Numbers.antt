-- ===== src/App/Json/Numbers.antt =====
-- How much of a number's text the JSON readers take.
use frog_quant.Prelude.{
  ℕ, ◌≡◌, refl, ap, ◌∙◌, Bool, true, false, some, [], ◌∷◌, ◌++◌, Text, arith, All,
}
use frog_quant.Double.{Double, DoubleText}
use mathlib.Core.List.{tail}
use frog_quant.Strings.Keys.{quote}
use frog_quant.Strings.{find, find_char, drop_while, take_while, is_empty}
use frog_quant.App.Json.{is_blank, value_of, is_number_char, json_get_number, json_get_int}

take_while-append :
    (test : ℕ → Bool) (s : Text) (c : ℕ) (rest : Text)
    → All (λ b. test b ≡ true) s
    → test c ≡ false
    → take_while test (s ++ c ∷ rest) ≡ s
unfolding take_while
take_while-append test [] c rest h e = rw e refl
take_while-append test (b ∷ s) c rest h e = rw (h.0, take_while-append test s c rest h.1 e) refl

-- A number is not blank at its front.
drop_while-number :
    (s rest : Text)
    → All (λ b. is_number_char b ≡ true) s
    → is_empty s ≡ false
    → drop_while is_blank (s ++ rest) ≡ s ++ rest
unfolding drop_while
drop_while-number [] rest h nonempty = cc
drop_while-number (b ∷ s) rest h nonempty = ground (arith, h.0)

value_of-found :
    (body key p colon : Text)
    → find (quote key) body ≡ some p
    → find_char b':' p ≡ some colon
    → value_of body key ≡ some (drop_while is_blank (tail colon))
unfolding value_of
value_of-found body key p colon h e = ground arith

-- A number that stands directly behind the colon of its key.
pub value_of-number :
    (body key p s rest : Text)
    → find (quote key) body ≡ some p
    → find_char b':' p ≡ some (b':' ∷ s ++ rest)
    → All (λ b. is_number_char b ≡ true) s
    → is_empty s ≡ false
    → value_of body key ≡ some (s ++ rest)
value_of-number body key p s rest h e digits nonempty =
    value_of-found body key p (b':' ∷ s ++ rest) h e
    ∙ ap some (drop_while-number s rest digits nonempty)

module _ {F : Type 0} ⦃t : DoubleText F⦄ where
  -- Behind its key a number is read up to the first character that is neither a digit nor a point
  -- nor a minus sign, wherever the number itself ends, and has the value of the text up to there,
  -- if that is not empty.
  pub json_get_number-cut :
      (body key s : Text) (c : ℕ) (rest : Text)
      → value_of body key ≡ some (s ++ c ∷ rest)
      → All (λ b. is_number_char b ≡ true) s
      → is_empty s ≡ false
      → is_number_char c ≡ false
      → json_get_number body key ≡ t.stod s
  unfolding json_get_number
  json_get_number-cut body key s c rest h digits nonempty e =
      ground (arith, take_while-append is_number_char s c rest digits e)

module _ {F : Type 0} (d : Double F) (t : DoubleText F) where
  pub json_get_int-number :
      (body key : Text) (x : F)
      → json_get_number ⦃t = t⦄ body key ≡ some x
      → json_get_int d t body key ≡ some (d.to_int x)
  unfolding json_get_int
  json_get_int-number body key x h = rw h refl
