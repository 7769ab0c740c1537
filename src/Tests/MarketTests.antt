-- ===== src/Tests/MarketTests.antt =====
-- The market data clients' theorems at a trade of the exchange and at a run of the service.
use frog_quant.Prelude.{
  ◌≡◌, ◌≤◌, ◌+◌, refl, true, some, List, [], ◌∷◌, Text, bytes, show_nat, arith, length,
}
use frog_quant.Double.Fixed.{Fixed, fixed_double, fixed_text, read, read_digits}
use frog_quant.Core.Orders.{web_socket}
use frog_quant.Strings.{find, starts_with}
use frog_quant.Strings.Keys.{quote}
use frog_quant.Execution
use frog_quant.Market.Trades
use frog_quant.Market.Trades.{parse_trade_json}
use frog_quant.Market.TradeRoundTrip.{IsTrade, parse_trade_json-IsTrade}
use frog_quant.Market.Agreement.{extract_json_value-agree}
use frog_quant.Market.Service.{
  Action, Service, starts, ws_tests, rest_tests, connects, reads, fetches, run, stop, new_service,
}
use frog_quant.Market.Stopping.{stop-calls}
use frog_quant.Tests.Inputs.{usd, test_tick}

abbrev trade : Text
trade = bytes "{\"e\":\"trade\",\"E\":12,\"s\":\"BTCUSDT\",\"p\":\"60000000000\",\"q\":\"1\"}"

trade-IsTrade : IsTrade trade (bytes "BTCUSDT") (bytes "60000000000") 12
unfolding find starts_with quote show_nat
trade-IsTrade = record {
  symbol_end = bytes ",\"p\":\"60000000000\",\"q\":\"1\"}";
  symbol_follows = refl;
  price_end = bytes ",\"q\":\"1\"}";
  price_follows = refl;
  time_end = bytes "\"s\":\"BTCUSDT\",\"p\":\"60000000000\",\"q\":\"1\"}";
  delimiter = b',';
  is_delimited = refl;
  time_follows = refl;
  symbol_plain = ground arith;
  price_plain = ground arith;
  has_symbol = refl;
  has_price = refl;
}

price_reads : read (bytes "60000000000") ≡ some (usd 60000)
unfolding read read_digits
price_reads = refl

parse_trade_json-IsTrade_example :
    parse_trade_json {F = Fixed} 20 trade
    ≡ some (record {
      symbol = bytes "BTCUSDT";
      price = usd 60000;
      exchange_ts = 12;
      recv_ts = 20;
      source = web_socket;
    })
parse_trade_json-IsTrade_example =
    parse_trade_json-IsTrade 20 trade (bytes "BTCUSDT") (bytes "60000000000") 12 (usd 60000)
      trade-IsTrade (omega arith) price_reads

extract_json_value-agree_example :
    Trades.extract_json_value trade (bytes "E") ≡ Execution.extract_json_value trade (bytes "E")
extract_json_value-agree_example = extract_json_value-agree trade (bytes "E") (ground arith)

abbrev before : List (Action Fixed)
before =
    starts
    ∷ ws_tests
    ∷ connects true
    ∷ connects true
    ∷ connects true
    ∷ connects true
    ∷ ws_tests
    ∷ rest_tests
    ∷ fetches (some test_tick)
    ∷ []

abbrev after : List (Action Fixed)
after = reads 20 (some trade) ∷ ws_tests ∷ rest_tests ∷ []

stop-calls_example :
    length (run (stop (run new_service before)) after).ticks
    ≤ length (run (new_service {F = Fixed}) before).ticks + 2
stop-calls_example = stop-calls before after (ground arith)

abbrev stopped : Service Fixed
unfolding stop run new_service
stopped = stop (run new_service before)
