-- ===== src/Strings/Keys.antt =====
-- The value behind a key in a JSON text, as the program's readers search for it: the text is not
-- parsed, and the first `"key":` counts.
use frog_quant.Prelude.{
  ℕ, Bool, ◌||◌, Option, none, some, [], ◌∷◌, ◌++◌, Text, if◌then◌else◌, ◌==◌, drop, length,
  get_or_else,
}
use frog_quant.Strings.{find, before, drop_while}

-- `"key"`
unfoldable pub quote : Text → Text
quote s = b'"' ∷ s ++ b'"' ∷ []

-- `"key":`
abbrev pub key_token : Text → Text
unfolding quote
key_token key = quote key ++ b':' ∷ []

-- `p += t.size()`, if the text was found
abbrev pub past : Text → Option Text → Option Text
past token none = none
past token (some p) = some (drop (length token) p)

abbrev pub is_delimiter : ℕ → Bool
is_delimiter c = c == b',' || c == b'}'

abbrev pub is_double_quote : ℕ → Bool
is_double_quote c = c == b'"'

-- A value in quotes, or the text up to a comma or a brace; nothing if its end is missing.
unfoldable pub value_at : Text → Text
unfolding before
value_at [] = []
value_at (c ∷ p) =
    if is_double_quote c
    then get_or_else (before is_double_quote p) []
    else get_or_else (before is_delimiter (c ∷ p)) []

-- The value behind a key and behind blanks.
unfoldable pub key_value : (ℕ → Bool) → Text → Text → Text
unfolding quote find drop_while value_at
key_value is_blank key json = elim (past (key_token key) (find (key_token key) json)) [
  | none ↦ []
  | some p ↦ value_at (drop_while is_blank p)
]
