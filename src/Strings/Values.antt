-- ===== src/Strings/Values.antt =====
-- What the readers find behind a key, given where the key first occurs.
use frog_quant.Prelude.{
  ℕ, ◌≡◌, refl, Bool, true, false, some, [], ◌∷◌, ◌++◌, Text, arith, All, All-mono, IsDigit,
}
use frog_quant.Strings.{find, drop_while, is_empty}
use frog_quant.Strings.Search.{drop-append, before-append}
use frog_quant.Strings.Keys.{key_token, is_delimiter, is_double_quote, value_at, key_value}

-- The first `"key":` of the text is followed by the value.
abbrev pub Follows : (key json value : Text) → Type 0
Follows key json value = find (key_token key) json ≡ some (key_token key ++ value)

module _ (is_blank : ℕ → Bool) where
  key_value-Follows :
      (key json value : Text)
      → Follows key json value
      → key_value is_blank key json ≡ value_at (drop_while is_blank value)
  unfolding key_value
  key_value-Follows key json value h = ground (arith, h, drop-append (key_token key) value)

  -- A text in quotes.
  pub key_value-string :
      (key json s rest : Text)
      → is_blank b'"' ≡ false
      → All (λ b. is_double_quote b ≡ false) s
      → Follows key json (b'"' ∷ (s ++ b'"' ∷ rest))
      → key_value is_blank key json ≡ s
  unfolding value_at drop_while
  key_value-string key json s rest blank plain h = ground (
    arith,
    key_value-Follows key json (b'"' ∷ (s ++ b'"' ∷ rest)) h,
    before-append is_double_quote s b'"' rest plain refl,
  )

  -- A number up to a comma or a brace.
  pub key_value-digits :
      (key json s : Text) (c : ℕ) (rest : Text)
      → ((b : ℕ) → IsDigit b → is_blank b ≡ false)
      → All IsDigit s
      → is_empty s ≡ false
      → is_delimiter c ≡ true
      → Follows key json (s ++ c ∷ rest)
      → key_value is_blank key json ≡ s
  unfolding value_at drop_while
  key_value-digits key json [] c rest blank digits nonempty end h = cc
  key_value-digits key json (b ∷ s) c rest blank digits nonempty end h = ground (
    arith,
    key_value-Follows key json (b ∷ s ++ c ∷ rest) h,
    blank b digits.0,
    before-append is_delimiter (b ∷ s) c rest
        (All-mono IsDigit (λ x. is_delimiter x ≡ false) (b ∷ s) (λ x d. ground arith) digits) end,
  )
