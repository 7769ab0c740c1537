-- ===== src/Market/Trades.antt =====
-- market/binance_ws_client.cpp: the trades that the WebSocket stream carries.
use frog_quant.Prelude.{◌>>=◌, ℕ, ◌||◌, Option, none, some, ◌++◌, Text, bytes, map, if◌then◌else◌}
use frog_quant.Double.{DoubleText}
use frog_quant.Core.Orders.{MarketTick, web_socket}
use frog_quant.Strings.{lower_char, is_space, is_empty}
use frog_quant.Strings.Numbers.{stoull}
use frog_quant.Strings.Keys.{key_value}

unfoldable pub to_lower : Text → Text
to_lower s = map lower_char s

-- The path of the stream of a symbol's trades.
unfoldable pub stream_target : Text → Text
unfolding to_lower
stream_target symbol = bytes "/ws/" ++ (to_lower symbol ++ bytes "@trade")

unfoldable pub extract_json_value : Text → Text → Text
unfolding key_value
extract_json_value json key = key_value is_space key json

module _ {F : Type 0} ⦃t : DoubleText F⦄ where
  -- `none` stands for `false`: the tick is thrown away.
  unfoldable pub parse_trade_json : (now : ℕ) → Text → Option (MarketTick F)
  unfolding extract_json_value stoull
  parse_trade_json now json =
      let sym = extract_json_value json (bytes "s") in
      let p = extract_json_value json (bytes "p") in
      let e = extract_json_value json (bytes "E") in
      if is_empty sym || is_empty p then none else (do
        price ← t.stod p
        exchange_ts ← if is_empty e then some 0 else stoull e
        some (record {
          symbol = sym;
          price = price;
          exchange_ts = exchange_ts;
          recv_ts = now;
          source = web_socket;
        }))
