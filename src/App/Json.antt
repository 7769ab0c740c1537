-- ===== src/App/Json.antt =====
-- The readers of JSON bodies in app/app_support.cpp, which search the text for a key.
pub mod Numbers
use frog_quant.Prelude.{
  ◌>>=◌, ℕ, ℤ, ◌≡◌, refl, Bool, true, false, ◌||◌, Option, none, some, [], ◌∷◌, ◌++◌, Text, bytes,
  if◌then◌else◌, ◌==◌,
}
use mathlib.Core.List.{tail}
use frog_quant.Double.{Double, DoubleText}
use frog_quant.Strings.{
  starts_with, find, find_char, before, take_while, drop_while, is_empty, is_digit,
}
use frog_quant.Strings.Keys.{quote}

abbrev pub is_blank : ℕ → Bool
is_blank c = c == 32 || c == 10

abbrev pub is_number_char : ℕ → Bool
is_number_char c = is_digit c || c == b'.' || c == b'-'

-- The text behind the key and its colon, and behind blanks and line feeds.
unfoldable pub value_of : Text → Text → Option Text
unfolding quote find find_char drop_while
value_of body key = do
  p ← find (quote key) body
  colon ← find_char b':' p
  some (drop_while is_blank (tail colon))

module _ {F : Type 0} ⦃t : DoubleText F⦄ where
  unfoldable pub json_get_number : Text → Text → Option F
  unfolding value_of take_while
  json_get_number body key = do
    p ← value_of body key
    let number = take_while is_number_char p
    if is_empty number then none else t.stod number

module _ {F : Type 0} (d : Double F) (t : DoubleText F) where
  unfoldable pub json_get_int : Text → Text → Option ℤ
  unfolding json_get_number
  json_get_int body key = do v ← json_get_number ⦃t = t⦄ body key; some (d.to_int v)

unfoldable pub json_get_bool : Text → Text → Option Bool
unfolding value_of starts_with
json_get_bool body key = do
  p ← value_of body key
  if starts_with (bytes "true") p
      then some true
      else if starts_with (bytes "false") p
      then some false
      else none

unfoldable pub json_get_string : Text → Text → Option Text
unfolding quote find find_char before
json_get_string body key = do
  p ← find (quote key) body
  colon ← find_char b':' p
  open_quote ← find_char b'"' colon
  before (λ c. c == b'"') (tail open_quote)

order_body : Text
order_body = bytes "{\"symbol\":\"BTCUSDT\", \"side\": \"SELL\", \"live\":\n true}"

reads_order :
    (json_get_string order_body (bytes "side") ≡ some (bytes "SELL"))
    × (json_get_string order_body (bytes "type") ≡ none)
    × (json_get_bool order_body (bytes "live") ≡ some true)
unfolding order_body json_get_string json_get_bool
reads_order = (refl, refl, refl)
