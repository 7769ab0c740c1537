-- ===== src/Market/Rest.antt =====
-- market/binance_rest_client.cpp: `BinanceRestClient`.
use frog_quant.Prelude.{◌>>=◌, ℕ, Option, none, some, ◌++◌, Text, bytes, if◌then◌else◌, ◌==◌}
use frog_quant.Curl.{Transfer}
use frog_quant.Double.{DoubleText}
use frog_quant.Core.Orders.{MarketTick, rest_fallback}
use frog_quant.Strings.{find, before, is_empty}
use frog_quant.Strings.Keys.{past, is_double_quote}

-- Nothing if there is no handle, if the transfer fails, or if the status is not 200.
unfoldable pub http_get : (Text → Option Transfer) → Text → Option Text
http_get get url = do
  r ← get url
  elim r.failure [ some why ↦ none | none ↦ if r.http_code == 200 then some r.body else none ]

abbrev pub price_key : Text
price_key = bytes "\"price\":\""

module _ {F : Type 0} ⦃t : DoubleText F⦄ where
  unfoldable pub parse_price_json : Text → Option F
  unfolding find before
  parse_price_json json = do
    p ← past price_key (find price_key json)
    s ← before is_double_quote p
    if is_empty s then none else t.stod s

  unfoldable pub fetch_last_price :
      (Text → Option Transfer) → (base_url : Text) → (now : ℕ) → Text → Option (MarketTick F)
  unfolding http_get parse_price_json
  fetch_last_price get base_url now symbol = do
    body ← http_get get (base_url ++ (bytes "/api/v3/ticker/price?symbol=" ++ symbol))
    price ← parse_price_json body
    some (record {
      symbol = symbol;
      price = price;
      exchange_ts = 0;
      recv_ts = now;
      source = rest_fallback;
    })
