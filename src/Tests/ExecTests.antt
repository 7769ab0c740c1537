-- ===== src/Tests/ExecTests.antt =====
-- The execution client's theorems at an order of the exchange's test network.
use frog_quant.Prelude.{
  pos, negsuc, ◌+◌, ◌≡◌, refl, true, false, ◌&&◌, ◌||◌, not, none, some, [], Text, bytes, show_nat,
  arith, if◌then◌else◌,
}
use frog_quant.Double.Fixed.{Fixed, nan, micro, fixed_double, fixed_text, print}
use frog_quant.Core.Orders.{buy, limit}
use frog_quant.Strings.Split.{Lacks}
use frog_quant.Execution.{
  ExecConfig, Network, PlaceOrder, order_query, price_part, id_part, stamped, side_to_str,
  type_to_str, place_order,
}
use frog_quant.Execution.Fields.{parse_query}
use frog_quant.Execution.Query.{
  HasPlainNumbers, Lacks-show_nat, order_fields, parse_query-order_query,
}
use frog_quant.Execution.Requests.{Sends, signed_request, place_order-Sends}
use frog_quant.App.Live.{exchange_order-sent}
use frog_quant.App.Trade.{exchange_order}
use frog_quant.Tests.Inputs.{small_buy, usd}
use frog_quant.Tests.AppTests.{empty_disk, live, live_result, live_ready}
use frog_quant.Strings.{is_empty}

Lacks-print : (x : Fixed) → Lacks b'&' (print x)
unfolding print
Lacks-print nan = ground arith
Lacks-print (micro (pos n)) = Lacks-show_nat n
Lacks-print (micro (negsuc n)) = (refl, Lacks-show_nat (n + 1))

fixed_text-HasPlainNumbers : HasPlainNumbers fixed_text
fixed_text-HasPlainNumbers precision x = Lacks-print x

-- The exchange answers every request with 200.
abbrev net : Network
net = record {
  hmac = λ key text. [];
  has_handle = true;
  perform = λ req. record { failure = none; http_code = 200; body = bytes "{\"orderId\":7}" };
}

abbrev cfg : ExecConfig
cfg = record {
  api_key = bytes "k";
  secret_key = bytes "s";
  base_url = bytes "http://test";
  dry_run = false;
}

abbrev order : PlaceOrder Fixed
order = record {
  symbol = bytes "BTCUSDT";
  side = buy;
  type = limit;
  qty = usd 1;
  price = some (usd 2);
  client_order_id = bytes "fq_1";
}

abbrev query : Text
query =
    bytes
      "symbol=BTCUSDT&side=BUY&type=LIMIT&quantity=1000000&timeInForce=GTC&price=2000000&newClientOrderId=fq_1&timestamp=9&recvWindow=5000"

order_has_query : order_query 9 order ≡ some query
unfolding order_query price_part id_part stamped side_to_str type_to_str show_nat print
order_has_query = refl

parse_query-order_query_example : parse_query query ≡ order_fields 9 order
parse_query-order_query_example =
    parse_query-order_query 9 order query fixed_text-HasPlainNumbers order_has_query (ground arith)
      (ground arith)

place_order-Sends_example : Sends net cfg (bytes "POST") query (place_order net cfg 9 order)
place_order-Sends_example = place_order-Sends net cfg 9 order query order_has_query

exchange_order-sent_example :
    let (r, sent) = place_order net live_result.exec_cfg 9 (exchange_order small_buy 1) in
    (text : Text) × (order_query 9 (exchange_order small_buy 1) ≡ some text)
    × (sent ≡ (
        if live_result.exec_cfg.dry_run
        then none
        else some (signed_request net live_result.exec_cfg (bytes "POST") text)))
    × ((live_result.exec_cfg.dry_run
          || (not (is_empty live_result.exec_cfg.api_key)
              && not (is_empty live_result.exec_cfg.secret_key)))
        ≡ true)
exchange_order-sent_example =
    exchange_order-sent live empty_disk live_result net 9 small_buy 1 live_ready refl
