-- ===== src/Execution/Requests.antt =====
-- When a request goes on the wire, and what is in it.
use frog_quant.Prelude.{
  ℕ, ◌≡◌, refl, sym, subst, Bool, true, false, ◌&&◌, ◌||◌, not, Option, none, some, [], ◌∷◌, ◌++◌,
  Text, bytes, arith, if◌then◌else◌, ltb, leb, text_eq,
}
use frog_quant.Curl.{HttpRequest, Transfer}
use frog_quant.Double.{DoubleText}
use frog_quant.Strings.{is_empty}
use frog_quant.Execution.{
  ExecConfig, ExecResult, PlaceOrder, Network, place_order, place_query, order_query, cancel_order,
  cancel_query, send_signed_request, http_request, transfer_result, hex, sign_query_hmac_sha256,
}

-- The signed request of a query.
abbrev pub signed_request : Network → ExecConfig → (method query : Text) → HttpRequest
signed_request net cfg method query = record {
  method = method;
  url = cfg.base_url ++ bytes "/fapi/v1/order";
  headers =
      (bytes "X-MBX-APIKEY: " ++ cfg.api_key)
      ∷ bytes "Content-Type: application/x-www-form-urlencoded"
      ∷ [];
  fields = query ++ (bytes "&signature=" ++ hex (net.hmac cfg.secret_key query));
}

-- Trading for real, with both keys.
abbrev pub is_live : ExecConfig → Bool
is_live cfg = not cfg.dry_run && (not (is_empty cfg.api_key) && not (is_empty cfg.secret_key))

-- A transfer that libcurl reports no error for, with a status from 200 to 299.
abbrev pub is_delivered : Transfer → Bool
is_delivered t = elim t.failure [
  | some why ↦ false
  | none ↦ leb 200 t.http_code && ltb t.http_code 300
]

-- What a call does with a query that is to be signed.
abbrev pub Sends :
    Network → ExecConfig → (method query : Text) → ExecResult × Option HttpRequest → Type 0
Sends net cfg method query (r, sent) =
    (sent ≡ (
      if is_live cfg && net.has_handle then some (signed_request net cfg method query) else none))
    × (r.success ≡ (
        not (is_empty cfg.api_key)
        && (not (is_empty cfg.secret_key)
            && (cfg.dry_run
                || (net.has_handle
                    && is_delivered (net.perform (signed_request net cfg method query)))))))

http_request-signed :
    (net : Network) (cfg : ExecConfig) (method query : Text)
    → (text_eq method (bytes "POST") || text_eq method (bytes "DELETE")) ≡ true
    → http_request cfg method
        (cfg.base_url ++ bytes "/fapi/v1/order")
        (query ++ (bytes "&signature=" ++ sign_query_hmac_sha256 net cfg query))
      ≡ signed_request net cfg method query
unfolding http_request sign_query_hmac_sha256
http_request-signed net cfg method query h = rw h refl

transfer_result-success : (t : Transfer) → (transfer_result t).success ≡ is_delivered t
unfolding transfer_result
transfer_result-success t = ground arith

send-Sends :
    (net : Network) (cfg : ExecConfig) (method query : Text)
    → (text_eq method (bytes "POST") || text_eq method (bytes "DELETE")) ≡ true
    → Sends net cfg method query (send_signed_request net cfg method (bytes "/fapi/v1/order") query)
unfolding send_signed_request
send-Sends net cfg method query h =
    let e = http_request-signed net cfg method query h in
    let k = transfer_result-success (net.perform (signed_request net cfg method query)) in
    (ground (arith, e), ground (arith, e, k))

module _ {F : Type 0} ⦃t : DoubleText F⦄ where
  -- A placed order, unless it is a limit order with no price: exactly when trading is live, both
  -- keys are there and libcurl has a handle, one POST request goes on the wire, with the order's
  -- query and its signature, the hexadecimal digits of its HMAC under the secret key. The call
  -- succeeds exactly if both keys are there and it is a dry run, or libcurl has a handle and the
  -- transfer is delivered.
  pub place_order-Sends :
      (net : Network) (cfg : ExecConfig) (now : ℕ) (o : PlaceOrder F) (query : Text)
      → order_query now o ≡ some query
      → Sends net cfg (bytes "POST") query (place_order net cfg now o)
  unfolding place_order
  place_order-Sends net cfg now o query e =
      subst (λ q. Sends net cfg (bytes "POST") query (place_query net cfg q)) (sym e)
        (send-Sends net cfg (bytes "POST") query refl)

pub cancel_order-Sends :
    (net : Network) (cfg : ExecConfig) (now : ℕ) (symbol order_id : Text)
    → Sends net cfg
        (bytes "DELETE")
        (cancel_query now symbol order_id)
        (cancel_order net cfg now symbol order_id)
unfolding cancel_order
cancel_order-Sends net cfg now symbol order_id =
    send-Sends net cfg (bytes "DELETE") (cancel_query now symbol order_id) refl
