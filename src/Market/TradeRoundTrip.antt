-- ===== src/Market/TradeRoundTrip.antt =====
-- A trade as the exchange writes it is read.
use frog_quant.Prelude.{
  ℕ, ◌^◌, ◌<◌, ◌≡◌, refl, true, false, some, ◌∷◌, ◌++◌, Text, bytes, arith, All, show_nat,
  show_nat-IsDigit,
}
use frog_quant.Double.{DoubleText}
use frog_quant.Core.Orders.{web_socket}
use frog_quant.Strings.{is_space, is_empty}
use frog_quant.Strings.Decimal.{is_empty-show_nat, stoull-show_nat}
use frog_quant.Strings.Keys.{is_double_quote, is_delimiter}
use frog_quant.Strings.Values.{Follows, key_value-digits, key_value-string}
use frog_quant.Market.Trades.{extract_json_value, parse_trade_json}

abbrev HasNoQuote : Text → Type 0
HasNoQuote s = All (λ b. is_double_quote b ≡ false) s

-- The three fields of a message, each where its key first occurs.
pub record IsTrade (json symbol price : Text) (time : ℕ) : Type 0 where
  pub symbol_end : Text
  pub symbol_follows : Follows (bytes "s") json (b'"' ∷ (symbol ++ b'"' ∷ symbol_end))
  pub price_end : Text
  pub price_follows : Follows (bytes "p") json (b'"' ∷ (price ++ b'"' ∷ price_end))
  pub time_end : Text
  pub delimiter : ℕ
  pub is_delimited : is_delimiter delimiter ≡ true
  pub time_follows : Follows (bytes "E") json (show_nat time ++ delimiter ∷ time_end)
  pub symbol_plain : HasNoQuote symbol
  pub price_plain : HasNoQuote price
  pub has_symbol : is_empty symbol ≡ false
  pub has_price : is_empty price ≡ false

extract-string :
    (json key s rest : Text)
    → HasNoQuote s
    → Follows key json (b'"' ∷ (s ++ b'"' ∷ rest))
    → extract_json_value json key ≡ s
unfolding extract_json_value
extract-string json key s rest plain h = key_value-string is_space key json s rest refl plain h

extract-number :
    (json key : Text) (n c : ℕ) (rest : Text)
    → is_delimiter c ≡ true
    → Follows key json (show_nat n ++ c ∷ rest)
    → extract_json_value json key ≡ show_nat n
unfolding extract_json_value
extract-number json key n c rest end h =
    key_value-digits is_space key json (show_nat n) c rest (λ b d. ground arith)
      (show_nat-IsDigit n) (is_empty-show_nat n) end h

module _ {F : Type 0} ⦃t : DoubleText F⦄ where
  -- A message whose first keys `s`, `p` and `E` stand before a symbol and a price in quotes and a
  -- time of 64 bits gives the tick with these, if the price's text is that of a number.
  pub parse_trade_json-IsTrade :
      (now : ℕ) (json symbol price : Text) (time : ℕ) (x : F)
      → IsTrade json symbol price time
      → time < 2 ^ 64
      → t.stod price ≡ some x
      → parse_trade_json now json
        ≡ some (record {
          symbol = symbol;
          price = x;
          exchange_ts = time;
          recv_ts = now;
          source = web_socket;
        })
  unfolding parse_trade_json
  parse_trade_json-IsTrade now json symbol price time x h small e = ground (
    arith,
    extract-string json (bytes "s") symbol h.symbol_end h.symbol_plain h.symbol_follows,
    extract-string json (bytes "p") price h.price_end h.price_plain h.price_follows,
    extract-number json (bytes "E") time h.delimiter h.time_end h.is_delimited h.time_follows,
    is_empty-show_nat time,
    stoull-show_nat time small,
    h.has_symbol,
    h.has_price,
  )
