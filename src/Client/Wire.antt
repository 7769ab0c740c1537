-- ===== src/Client/Wire.antt =====
-- What Qt sends for a call of qt_client/src/api_client.cpp. Qt prints the object (`QJsonDocument`), so
-- its printer is a parameter.
use frog_quant.Prelude.{
  ℕ, ◌≡◌, Bool, true, false, ◌&&◌, ◌||◌, not, true, false, none, some, [], ◌∷◌, ◌++◌, Text, bytes,
  All, leb, ◌==◌,
}
use frog_quant.Double.{DoubleText}
use frog_quant.Strings.{is_empty}
use frog_quant.Strings.Keys.{quote}
use frog_quant.Control.{Request}
use frog_quant.App.Json.{is_number_char}
use frog_quant.Client.{Call, Object, Value, number, string, boolean}

-- The text of a double, and the text of an object in the compact format.
pub record QtJson (F : Type 0) : Type 0 where
  pub number_text : F → Text
  pub to_json : Object F → Text

-- A letter or `_`, which a JSON text has as it is.
abbrev pub is_key_char : ℕ → Bool
is_key_char c = (leb 97 c && leb c 122) || c == b'_'

-- A printable character of ASCII that is no quote and no backslash.
abbrev pub is_plain_char : ℕ → Bool
is_plain_char c = (leb 32 c && leb c 126) && not (c == b'"' || c == b'\\')

module _ {F : Type 0} where
  abbrev pub IsPlainValue : Value F → Type 0
  IsPlainValue (string s) = All (λ c. is_plain_char c ≡ true) s
  IsPlainValue _ = Unit

  abbrev pub IsPlainField : Text × Value F → Type 0
  IsPlainField (key, v) = All (λ c. is_key_char c ≡ true) key × IsPlainValue v

module _ {F : Type 0} (qt : QtJson F) where
  -- A value, and what comes behind it.
  abbrev pub value_text : Value F → Text → Text
  value_text (number x) rest = qt.number_text x ++ rest
  value_text (string s) rest = b'"' ∷ (s ++ b'"' ∷ rest)
  value_text (boolean true) rest = bytes "true" ++ rest
  value_text (boolean false) rest = bytes "false" ++ rest

  -- The fields from the second one on, up to the closing brace.
  unfoldable pub more_fields : Object F → Text
  unfolding quote
  more_fields [] = bytes "}"
  more_fields ((key, v) ∷ fields) = b',' ∷ quote key ++ (b':' ∷ value_text v (more_fields fields))

  -- `{"k":1,"l":"a"}`
  unfoldable pub compact : Object F → Text
  unfolding quote more_fields
  compact [] = bytes "{}"
  compact ((key, v) ∷ fields) = b'{' ∷ quote key ++ (b':' ∷ value_text v (more_fields fields))

  -- An object of plain texts under plain keys is printed without blanks and without escapes, and a
  -- number without quotes.
  pub record IsCompact : Type 0 where
    pub no_quote : (x : F) → All (λ b. (b'"' == b) ≡ false) (qt.number_text x)
    pub to_json-plain : (obj : Object F) → All IsPlainField obj → qt.to_json obj ≡ compact obj

  -- A GET has no body.
  unfoldable pub request_of : Call F → Request
  request_of call = record {
    method = call.method;
    target = call.path;
    body = elim call.object [ none ↦ [] | some obj ↦ qt.to_json obj ];
  }

  -- A number that Qt prints in digits, a point and a minus sign, and that `std::stod` reads back.
  pub record IsReadBack ⦃t : DoubleText F⦄ (x : F) : Type 0 where
    pub plain : All (λ c. is_number_char c ≡ true) (qt.number_text x)
    pub nonempty : is_empty (qt.number_text x) ≡ false
    pub reads : t.stod (qt.number_text x) ≡ some x
