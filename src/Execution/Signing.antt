-- ===== src/Execution/Signing.antt =====
-- The hexadecimal digits of a signature.
use frog_quant.Prelude.{
  ℕ, ◌+◌, ◌-◌, ◌*◌, ◌/◌, ◌%◌, ◌<◌, ◌≡◌, refl, [], ◌∷◌, Text, arith, All, ltb, if◌then◌else◌, length,
}
use frog_quant.Execution.{hex, hex_digit}

abbrev pub digit_value : ℕ → ℕ
digit_value c = if ltb c b'a' then c - 48 else c - 87

unfoldable pub unhex : Text → Text
unhex [] = []
unhex (a ∷ []) = []
unhex (a ∷ b ∷ s) = (digit_value a * 16 + digit_value b) ∷ unhex s

digit_value-hex_digit : (n : ℕ) → n < 16 → digit_value (hex_digit n) ≡ n
digit_value-hex_digit n h = ground arith

-- The bytes of a hash are read back from its digits, and there are two digits for each.
pub unhex-hex :
    (s : Text) → All (λ b. b < 256) s → (unhex (hex s) ≡ s) × (length (hex s) ≡ 2 * length s)
unfolding unhex hex
unhex-hex [] h = (refl, refl)
unhex-hex (b ∷ s) h =
    let rest = unhex-hex s h.1 in
    (
      ground (arith, digit_value-hex_digit (b / 16), digit_value-hex_digit (b % 16), rest),
      omega (arith, rest.1),
    )
