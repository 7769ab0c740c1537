-- ===== src/Market/Agreement.antt =====
-- The two readers of JSON values, that of the WebSocket client and that of the execution client.
use frog_quant.Prelude.{
  ℕ, ◌≡◌, refl, Bool, subst, Bool-cases, Option-cases, inl, inr, some, [], ◌∷◌, Text, arith, All,
  All-drop, drop, length,
}
use frog_quant.Strings.{find, starts_with, drop_while, is_space}
use frog_quant.Strings.Keys.{key_token, key_value}
use frog_quant.Execution.{is_space_or_newline}
use frog_quant.Execution
use frog_quant.Market.Trades

-- What is found in a text stands in it.
All-find : (P : ℕ → Type 0) (token s r : Text) → All P s → find token s ≡ some r → All P r
unfolding find
All-find P token [] r h e = elim (Bool-cases (starts_with token [])) [
  | inl t ↦ ground arith
  | inr f ↦ ground arith
]
All-find P token (c ∷ s) r h e = elim (Bool-cases (starts_with token (c ∷ s))) [
  | inl t ↦ let k : c ∷ s ≡ r = ground arith in subst (All P) k h
  | inr f ↦ All-find P token s r h.1 (ground arith)
]

drop_while-cong :
    (f g : ℕ → Bool) (s : Text) → All (λ b. f b ≡ g b) s → drop_while f s ≡ drop_while g s
unfolding drop_while
drop_while-cong f g [] h = refl
drop_while-cong f g (c ∷ s) h = ground (arith, h.0, drop_while-cong f g s h.1)

-- The two readers give the same value under every key of a text in which blanks and line feeds are
-- the only white space.
pub extract_json_value-agree :
    (json key : Text)
    → All (λ b. is_space b ≡ is_space_or_newline b) json
    → Trades.extract_json_value json key ≡ Execution.extract_json_value json key
unfolding Trades.extract_json_value Execution.extract_json_value key_value
extract_json_value-agree json key h = elim (Option-cases (find (key_token key) json)) [
  | inl e ↦ ground arith
  | inr (r, e) ↦ ground (
    arith,
    drop_while-cong is_space is_space_or_newline (drop (length (key_token key)) r) (
        All-drop (λ b. is_space b ≡ is_space_or_newline b) (length (key_token key)) r
          (All-find (λ b. is_space b ≡ is_space_or_newline b) (key_token key) json r h e)),
  )
]
