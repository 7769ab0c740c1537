-- ===== src/Logger/Escaping.antt =====
-- What escaping a text into a JSON string keeps.
use mathlib.Core.List.{append_assoc}
use frog_quant.Prelude.{
  ℕ, ◌≡◌, refl, Option, none, some, [], ◌∷◌, ◌++◌, Text, if◌then◌else◌, ◌==◌, arith, ltb, Bool, not,
  ◌&&◌, ◌||◌, true, ◌||◌, refl,
}
use frog_quant.Logger.Json.{escape_char, escape_json}

-- The character that a backslash and `c` stand for, by the table of RFC 8259. The escapes `\u` of
-- code points are not read.
unescape_char : ℕ → Option ℕ
unescape_char c =
    if c == b'"' || (c == b'\\' || c == b'/')
    then some c
    else if c == b'n'
    then some 10
    else if c == b't'
    then some 9
    else if c == b'r'
    then some 13
    else if c == b'b'
    then some 8
    else if c == b'f'
    then some 12
    else none

-- Whether every character is a newline or no control character.
unfoldable pub is_loggable : Text → Bool
is_loggable [] = true
is_loggable (c ∷ s) = (c == 10 || not (ltb c 32)) && is_loggable s

prepend : Option ℕ → Option (Text × Text) → Option (Text × Text)
prepend (some c) (some (s, rest)) = some (c ∷ s, rest)
prepend _ _ = none

-- A JSON reader inside a string: the text up to the closing quote, and what stands behind it.
-- `none` if the quote is missing, or if a control character stands inside the string.
unfoldable pub unescape : Text → Option (Text × Text)
unfolding unescape_char prepend
unescape [] = none
unescape (c ∷ []) = if c == b'"' then some ([], []) else none
unescape (c ∷ d ∷ s) =
    let escaped = prepend (unescape_char d) (unescape s) in
    let plain = prepend (some c) (unescape (d ∷ s)) in
    if c == b'"'
    then some ([], d ∷ s)
    else if c == b'\\'
    then escaped
    else if ltb c 32
    then none
    else plain

-- Reading one escaped character in front of a text: it is read with the text, or not at all.
unescape-escape_char :
    (c : ℕ) (u : Text)
    → unescape (escape_char c ++ u)
      ≡ (if c == 10 || not (ltb c 32) then prepend (some c) (unescape u) else none)
unfolding unescape escape_char
unescape-escape_char c [] = ground arith
unescape-escape_char c (d ∷ s) = ground arith

-- A reader of JSON strings that refuses every raw control character reads the escaped form of a
-- text, up to the quote that closes it, back to the text itself if its only control characters are
-- newlines, and refuses it otherwise.
pub unescape-escape_json :
    (s rest : Text)
    → unescape (escape_json s ++ b'"' ∷ rest) ≡ (if is_loggable s then some (s, rest) else none)
unfolding escape_json unescape is_loggable prepend
unescape-escape_json [] [] = refl
unescape-escape_json [] (c ∷ rest) = refl
unescape-escape_json (c ∷ s) rest =
    rw (append_assoc (escape_char c) (escape_json s) (b'"' ∷ rest)) (
      rw (unescape-escape_char c (escape_json s ++ b'"' ∷ rest))
        (rw (unescape-escape_json s rest) (ground arith)))
