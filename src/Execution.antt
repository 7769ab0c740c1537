-- ===== src/Execution.antt =====
-- execution/binance_testnet_execution.{hpp,cpp}: `BinanceTestnetExecution`, which makes signed
-- requests of orders. HMAC-SHA256 and the HTTP transfer are those of OpenSSL and libcurl, and are
-- parameters; what goes on the wire is the second result of a call.
pub mod Fields
pub mod Query
pub mod Signing
pub mod Requests
pub mod OrderId
use frog_quant.Prelude.{
  ℕ, ◌/◌, ◌%◌, ◌+◌, Bool, true, false, ◌&&◌, ◌||◌, not, Option, none, some, List, [], ◌∷◌, ◌++◌,
  Text, bytes, show_nat, if◌then◌else◌, ◌==◌, ltb, leb, text_eq,
}
use frog_quant.Curl.{HttpRequest, Transfer}
use frog_quant.Double.{DoubleText}
use frog_quant.Core.Orders.{OrderSide, OrderType, buy, sell, market, limit, is_buy, is_limit}
use frog_quant.Strings.{is_empty}
use frog_quant.Strings.Keys.{key_value}

pub record ExecConfig : Type 0 where
  pub api_key : Text
  pub secret_key : Text
  pub base_url : Text
  pub dry_run : Bool

-- The arguments of a call of `place_order` with a client order id.
pub record PlaceOrder (F : Type 0) : Type 0 where
  pub symbol : Text
  pub side : OrderSide
  pub type : OrderType
  pub qty : F
  pub price : Option F
  pub client_order_id : Text

pub record ExecResult : Type 0 where
  pub success : Bool
  pub http_status : ℕ
  pub body : Text
  pub error : Text

-- OpenSSL's HMAC over SHA-256 with a key, and libcurl: whether a handle can be had, and transfers.
pub record Network : Type 0 where
  pub hmac : Text → Text → Text
  pub has_handle : Bool
  pub perform : HttpRequest → Transfer

unfoldable pub side_to_str : OrderSide → Text
side_to_str side = if is_buy side then bytes "BUY" else bytes "SELL"

unfoldable pub type_to_str : OrderType → Text
type_to_str type = if is_limit type then bytes "LIMIT" else bytes "MARKET"

abbrev pub is_space_or_newline : ℕ → Bool
is_space_or_newline c = c == 32 || c == 10

unfoldable pub extract_json_value : Text → Text → Text
unfolding key_value
extract_json_value json key = key_value is_space_or_newline key json

unfoldable pub parse_order_id_from_json : Text → Option Text
unfolding extract_json_value
parse_order_id_from_json body =
    let id = extract_json_value body (bytes "orderId") in if is_empty id then none else some id

-- A digit of `std::hex`, and a byte in two of them.
abbrev pub hex_digit : ℕ → ℕ
hex_digit n = if ltb n 10 then n + 48 else n + 87

unfoldable pub hex : Text → Text
hex [] = []
hex (b ∷ hash) = hex_digit (b / 16) ∷ hex_digit (b % 16) ∷ hex hash

unfoldable pub sign_query_hmac_sha256 : Network → ExecConfig → Text → Text
unfolding hex
sign_query_hmac_sha256 net cfg query = hex (net.hmac cfg.secret_key query)

abbrev pub refused : Text → ExecResult
refused why = record { success = false; http_status = 0; body = []; error = why }

-- The request that the options describe: libcurl's default method is GET, with no fields.
unfoldable pub http_request : ExecConfig → (method url fields : Text) → HttpRequest
unfolding text_eq
http_request cfg method url fields =
    let known = text_eq method (bytes "POST") || text_eq method (bytes "DELETE") in
    record {
      method = if known then method else bytes "GET";
      url = url;
      headers =
          (bytes "X-MBX-APIKEY: " ++ cfg.api_key)
          ∷ bytes "Content-Type: application/x-www-form-urlencoded"
          ∷ [];
      fields = if known then fields else [];
    }

unfoldable pub transfer_result : Transfer → ExecResult
transfer_result t = elim t.failure [
  | some why ↦ record { success = false; http_status = t.http_code; body = t.body; error = why }
  | none ↦ record {
    success = leb 200 t.http_code && ltb t.http_code 300;
    http_status = t.http_code;
    body = t.body;
    error = [];
  }
]

unfoldable pub send_signed_request :
    Network → ExecConfig → (method path query : Text) → ExecResult × Option HttpRequest
unfolding sign_query_hmac_sha256 http_request transfer_result
send_signed_request net cfg method path query =
    let fields = query ++ (bytes "&signature=" ++ sign_query_hmac_sha256 net cfg query) in
    let url = cfg.base_url ++ path in
    let request = http_request cfg method url fields in
    if is_empty cfg.api_key || is_empty cfg.secret_key
    then (refused (bytes "api credentials are empty"), none)
    else if cfg.dry_run
    then (
      record {
        success = true;
        http_status = 200;
        body = bytes "{\"dryRun\":true,\"url\":\"" ++ (url ++ bytes "\"}");
        error = [];
      },
      none,
    )
    else if not net.has_handle
    then (refused (bytes "curl init failed"), none)
    else (transfer_result (net.perform request), some request)

-- What is done with the query of an order: there is none for a limit order with no price.
unfoldable pub place_query : Network → ExecConfig → Option Text → ExecResult × Option HttpRequest
unfolding send_signed_request
place_query net cfg none = (refused (bytes "limit order requires price"), none)
place_query net cfg (some query) =
    send_signed_request net cfg (bytes "POST") (bytes "/fapi/v1/order") query

-- The end of every query.
unfoldable pub stamped : ℕ → Text
unfolding show_nat
stamped now = bytes "&timestamp=" ++ (show_nat now ++ bytes "&recvWindow=5000")

unfoldable pub id_part : Text → Text → Text
id_part id rest = if is_empty id then rest else bytes "&newClientOrderId=" ++ (id ++ rest)

module _ {F : Type 0} ⦃t : DoubleText F⦄ where
  -- The part of a limit order; `none` if its price is missing.
  unfoldable pub price_part : OrderType → Option F → Text → Option Text
  price_part market price rest = some rest
  price_part limit none rest = none
  price_part limit (some p) rest =
      some (bytes "&timeInForce=GTC&price=" ++ (t.show_fixed 2 p ++ rest))

  -- The whole query. The pieces stand in the order in which they are streamed.
  unfoldable pub order_query : ℕ → PlaceOrder F → Option Text
  unfolding side_to_str type_to_str price_part id_part stamped
  order_query now o = elim (price_part o.type o.price (id_part o.client_order_id (stamped now))) [
    | none ↦ none
    | some rest ↦ some (
        bytes "symbol="
        ++ (o.symbol
            ++ (bytes "&side="
                ++ (side_to_str o.side
                    ++ (bytes "&type="
                        ++ (type_to_str o.type
                            ++ (bytes "&quantity=" ++ (t.show_fixed 6 o.qty ++ rest))))))))
  ]

  unfoldable pub place_order :
      Network → ExecConfig → ℕ → PlaceOrder F → ExecResult × Option HttpRequest
  unfolding order_query place_query
  place_order net cfg now o = place_query net cfg (order_query now o)

unfoldable pub cancel_query : ℕ → (symbol order_id : Text) → Text
unfolding stamped
cancel_query now symbol order_id =
    bytes "symbol=" ++ (symbol ++ (bytes "&orderId=" ++ (order_id ++ stamped now)))

unfoldable pub cancel_order :
    Network → ExecConfig → ℕ → (symbol order_id : Text) → ExecResult × Option HttpRequest
unfolding cancel_query send_signed_request
cancel_order net cfg now symbol order_id =
    send_signed_request net cfg (bytes "DELETE") (bytes "/fapi/v1/order")
      (cancel_query now symbol order_id)
