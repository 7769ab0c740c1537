-- ===== src/Execution/OrderId.antt =====
-- The order id in the exchange's answer.
use frog_quant.Prelude.{
  ℕ, ◌≡◌, true, some, ◌∷◌, ◌++◌, Text, bytes, arith, show_nat, show_nat-IsDigit,
}
use frog_quant.Strings.Decimal.{is_empty-show_nat}
use frog_quant.Strings.Keys.{is_delimiter}
use frog_quant.Strings.Values.{Follows, key_value-digits}
use frog_quant.Execution.{parse_order_id_from_json, extract_json_value, is_space_or_newline}

-- If the first `"orderId":` of an answer is followed by a number that a comma or a brace ends, its
-- digits are the order id, whatever else stands in the answer.
pub parse_order_id_from_json-digits :
    (body : Text) (n c : ℕ) (rest : Text)
    → is_delimiter c ≡ true
    → Follows (bytes "orderId") body (show_nat n ++ c ∷ rest)
    → parse_order_id_from_json body ≡ some (show_nat n)
unfolding parse_order_id_from_json extract_json_value
parse_order_id_from_json-digits body n c rest end h = ground (
  arith,
  is_empty-show_nat n,
  key_value-digits is_space_or_newline (bytes "orderId") body (show_nat n) c rest
      (λ b d. ground arith) (show_nat-IsDigit n) (is_empty-show_nat n) end h,
)
