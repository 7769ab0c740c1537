-- ===== src/Client/OrderText.antt =====
-- The object that the form for orders sends, as qt_client/src/pages/trading_page.cpp builds it, in the
-- hands of the server's readers.
use frog_quant.Prelude.{
  ℕ, ◌>>=◌, ◌≡◌, refl, ◌∙◌, ◌⊎◌, inl, inr, Bool, true, false, not, Option, some, [], ◌∷◌, ◌++◌,
  Text, bytes, arith, All, All-mono, ◌==◌, leb, ◌&&◌,
}
use mathlib.Core.List.{tail}
use frog_quant.Double.{DoubleText}
use frog_quant.Strings.{find, find_char, before, starts_with, is_empty}
use frog_quant.Strings.Search.{find-skip, before-append}
use frog_quant.Strings.Keys.{quote}
use frog_quant.App.Json.{json_get_number, json_get_string}
use frog_quant.App.Json.Numbers.{json_get_number-cut, value_of-number}
use frog_quant.Client.Trading.{OrderForm, order_object}
use frog_quant.Client.Wire.{QtJson, compact, more_fields, IsReadBack, is_plain_char}

abbrev pub HasNoQuote : Text → Type 0
HasNoQuote s = All (λ b. (b'"' == b) ≡ false) s

-- A text in quotes that begins otherwise than the key is passed over.
find-skip_quoted :
    (k : ℕ) (key : Text) (c : ℕ) (s rest : Text)
    → (k == c) ≡ false
    → HasNoQuote (c ∷ s)
    → find (b'"' ∷ k ∷ key) (b'"' ∷ c ∷ s ++ rest) ≡ find (b'"' ∷ k ∷ key) rest
unfolding find starts_with
find-skip_quoted k key c s rest other plain =
    ground (arith, find-skip b'"' (k ∷ key) (c ∷ s) rest plain)

-- The text in the quotes behind a key.
abbrev string_behind : Text → Option Text
unfolding find_char before
string_behind p = do
  colon ← find_char b':' p
  open_quote ← find_char b'"' colon
  before (λ c. c == b'"') (tail open_quote)

json_get_string-found :
    (body key p : Text)
    → find (quote key) body ≡ some p
    → json_get_string body key ≡ string_behind p
unfolding json_get_string
json_get_string-found body key p h = ground (arith, h)

before-quote : (s rest : Text) → HasNoQuote s → before (λ c. c == b'"') (s ++ b'"' ∷ rest) ≡ some s
before-quote s rest h =
    before-append (λ c. c == b'"') s b'"' rest
      (All-mono (λ b. (b'"' == b) ≡ false) (λ b. (b == b'"') ≡ false) s (λ b e. ground arith) h)
      refl

-- The text of an order from its side, its symbol and its type on.
abbrev from_type : Text → Text
from_type type = bytes "\"type\":\"" ++ (type ++ bytes "\"}")

abbrev from_symbol : Text → Text → Text
from_symbol symbol type = bytes "\"symbol\":\"" ++ (symbol ++ (bytes "\"," ++ from_type type))

abbrev from_side : Text → Text → Text → Text
from_side side symbol type =
    bytes "\"side\":\"" ++ (side ++ (bytes "\"," ++ from_symbol symbol type))

abbrev from_qty : Text → Text → Text → Text → Text
from_qty qty side symbol type = bytes "\"qty\":" ++ (qty ++ (b',' ∷ from_side side symbol type))

abbrev pub order_text : Text → Text → Text → Text → Text → Text
order_text price qty side symbol type =
    bytes "{\"price\":" ++ (price ++ (b',' ∷ from_qty qty side symbol type))

module _ {F : Type 0} (qt : QtJson F) where
  pub compact-order_object :
      (f : OrderForm F)
      → compact qt (order_object f)
        ≡ order_text (qt.number_text f.price) (qt.number_text f.qty) f.side f.symbol f.type
  unfolding compact more_fields quote order_object
  compact-order_object f = refl

abbrev pub HasSide : Text → Type 0
HasSide side = (side ≡ bytes "BUY") ⊎ (side ≡ bytes "SELL")

HasSide-HasNoQuote : (side : Text) → HasSide side → HasNoQuote side
HasSide-HasNoQuote side (inl e) = rw e (ground arith)
HasSide-HasNoQuote side (inr e) = rw e (ground arith)

-- A symbol in upper case.
abbrev pub is_symbol_char : ℕ → Bool
is_symbol_char c = is_plain_char c && not (leb 97 c && leb c 122)

HasNoQuote-symbol : (s : Text) → All (λ c. is_symbol_char c ≡ true) s → HasNoQuote s
HasNoQuote-symbol s h =
    All-mono (λ c. is_symbol_char c ≡ true) (λ b. (b'"' == b) ≡ false) s (λ b e. ground arith) h

-- The keys behind the side.
find-symbol :
    (side symbol type : Text)
    → HasSide side
    → find (quote (bytes "symbol")) (from_side side symbol type) ≡ some (from_symbol symbol type)
unfolding find starts_with quote
find-symbol side symbol type (inl e) = rw e refl
find-symbol side symbol type (inr e) = rw e refl

find-type_behind_side :
    (side symbol type : Text)
    → HasSide side
    → find (quote (bytes "type")) (from_side side symbol type)
      ≡ find (quote (bytes "type")) (b'"' ∷ (symbol ++ (bytes "\"," ++ from_type type)))
unfolding find starts_with quote
find-type_behind_side side symbol type (inl e) = rw e refl
find-type_behind_side side symbol type (inr e) = rw e refl

find-type_behind_symbol :
    (symbol type : Text)
    → All (λ c. is_symbol_char c ≡ true) symbol
    → is_empty symbol ≡ false
    → find (quote (bytes "type")) (b'"' ∷ (symbol ++ (bytes "\"," ++ from_type type)))
      ≡ some (from_type type)
unfolding find starts_with quote
find-type_behind_symbol [] type h nonempty = cc
find-type_behind_symbol (c ∷ s) type h nonempty =
    find-skip_quoted b't' (bytes "ype\"") c s (bytes "\"," ++ from_type type) (ground (arith, h.0))
      (HasNoQuote-symbol (c ∷ s) h)

find-qty :
    (price qty side symbol type : Text)
    → HasNoQuote price
    → find (quote (bytes "qty")) (order_text price qty side symbol type)
      ≡ some (from_qty qty side symbol type)
unfolding find starts_with quote
find-qty price qty side symbol type p =
    find-skip b'"' (bytes "qty\"") price (b',' ∷ from_qty qty side symbol type) p

-- A search passes over the two numbers.
module _ (price qty side symbol type : Text) (p : HasNoQuote price) (q : HasNoQuote qty) where
  find-side :
      find (quote (bytes "side")) (order_text price qty side symbol type)
      ≡ some (from_side side symbol type)
  unfolding find starts_with quote
  find-side =
      find-skip b'"' (bytes "side\"") price (b',' ∷ from_qty qty side symbol type) p
      ∙ find-skip b'"' (bytes "side\"") qty (b',' ∷ from_side side symbol type) q

  find-symbol_behind_numbers :
      find (quote (bytes "symbol")) (order_text price qty side symbol type)
      ≡ find (quote (bytes "symbol")) (from_side side symbol type)
  unfolding find starts_with quote
  find-symbol_behind_numbers =
      find-skip b'"' (bytes "symbol\"") price (b',' ∷ from_qty qty side symbol type) p
      ∙ find-skip b'"' (bytes "symbol\"") qty (b',' ∷ from_side side symbol type) q

  find-type_behind_numbers :
      find (quote (bytes "type")) (order_text price qty side symbol type)
      ≡ find (quote (bytes "type")) (from_side side symbol type)
  unfolding find starts_with quote
  find-type_behind_numbers =
      find-skip b'"' (bytes "type\"") price (b',' ∷ from_qty qty side symbol type) p
      ∙ find-skip b'"' (bytes "type\"") qty (b',' ∷ from_side side symbol type) q

  pub get-side :
      HasSide side
      → json_get_string (order_text price qty side symbol type) (bytes "side") ≡ some side
  unfolding find_char string_behind before
  get-side h =
      json_get_string-found (order_text price qty side symbol type) (bytes "side")
        (from_side side symbol type) find-side
      ∙ before-quote side (b',' ∷ from_symbol symbol type) (HasSide-HasNoQuote side h)

  pub get-symbol :
      HasSide side
      → All (λ c. is_symbol_char c ≡ true) symbol
      → json_get_string (order_text price qty side symbol type) (bytes "symbol") ≡ some symbol
  unfolding find_char string_behind before
  get-symbol h plain =
      json_get_string-found (order_text price qty side symbol type) (bytes "symbol")
        (from_symbol symbol type) (find-symbol_behind_numbers ∙ find-symbol side symbol type h)
      ∙ before-quote symbol (b',' ∷ from_type type) (HasNoQuote-symbol symbol plain)

  pub get-type :
      HasSide side
      → All (λ c. is_symbol_char c ≡ true) symbol
      → is_empty symbol ≡ false
      → HasNoQuote type
      → json_get_string (order_text price qty side symbol type) (bytes "type") ≡ some type
  unfolding find_char string_behind before
  get-type h plain nonempty closed =
      json_get_string-found (order_text price qty side symbol type) (bytes "type") (from_type type)
        (find-type_behind_numbers
          ∙ find-type_behind_side side symbol type h
          ∙ find-type_behind_symbol symbol type plain nonempty)
      ∙ before-quote type (bytes "}") closed

module _ {F : Type 0} (qt : QtJson F) ⦃t : DoubleText F⦄ where
  pub get-price :
      (x : F) (qty side symbol type : Text)
      → IsReadBack qt x
      → json_get_number (order_text (qt.number_text x) qty side symbol type) (bytes "price")
        ≡ some x
  unfolding find starts_with quote find_char
  get-price x qty side symbol type shown =
      let s = qt.number_text x in
      let body = order_text s qty side symbol type in
      let rest = from_qty qty side symbol type in
      let at =
        value_of-number body (bytes "price") (tail body) s (b',' ∷ rest) refl refl shown.plain
          shown.nonempty in
      json_get_number-cut body (bytes "price") s b',' rest at shown.plain shown.nonempty refl
      ∙ shown.reads

  pub get-qty :
      (price : Text) (x : F) (side symbol type : Text)
      → HasNoQuote price
      → IsReadBack qt x
      → json_get_number (order_text price (qt.number_text x) side symbol type) (bytes "qty")
        ≡ some x
  unfolding find_char
  get-qty price x side symbol type p shown =
      let s = qt.number_text x in
      let body = order_text price s side symbol type in
      let rest = from_side side symbol type in
      let at =
        value_of-number body (bytes "qty") (from_qty s side symbol type) s (b',' ∷ rest)
          (find-qty price s side symbol type p) refl shown.plain shown.nonempty in
      json_get_number-cut body (bytes "qty") s b',' rest at shown.plain shown.nonempty refl
      ∙ shown.reads
