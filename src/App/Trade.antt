-- ===== src/App/Trade.antt =====
-- The routes of app/control_api_router.cpp for manual orders, and the lists of orders and events.
use frog_quant.Prelude.{
  ℕ, Option, none, some, List, [], ◌∷◌, ◌++◌, Text, bytes, show_nat, if◌then◌else◌, get_or_else,
  text_eq,
}
use frog_quant.Double.{Double, DoubleText, nought}
use frog_quant.Logger.{LogQueue}
use frog_quant.Core.Orders.{
  OrderRequest, OrderRecord, buy, sell, market, limit, is_accepted, is_limit,
}
use frog_quant.Core.Trading.{submit_manual_order, cancel_order, get_order}
use frog_quant.App.Json.{json_get_number, json_get_string}
use frog_quant.App.Format.{joined, comma_separated, status_to_str, reject_to_str}
use frog_quant.App.Context.{ControlApiContext, ApiOrderItem, Clock, push_event, push_order}
use frog_quant.Execution.{PlaceOrder}
use frog_quant.Control.{Response}
use frog_quant.App.Handlers.{bad_request, server_error, success}

unfoldable pub client_order_id : ℕ → Text
unfolding show_nat
client_order_id id = bytes "qt_" ++ show_nat id

module _ {F : Type 0} where
  -- The call of `exec.place_order` for an order with an id.
  unfoldable pub exchange_order : OrderRequest F → ℕ → PlaceOrder F
  unfolding client_order_id
  exchange_order req id = record {
    symbol = req.symbol;
    side = req.side;
    type = req.type;
    qty = req.qty;
    price = if is_limit req.type then some req.limit_price else none;
    client_order_id = client_order_id id;
  }

  unfoldable pub order_response : ℕ → OrderRecord F → Response
  unfolding joined show_nat status_to_str reject_to_str success
  order_response id ord = success (
      joined (
        bytes "{\"ok\":true,\"code\":\"OK\",\"internal_order_id\":"
        ∷ show_nat id
        ∷ bytes ",\"status\":\""
        ∷ status_to_str ord.status
        ∷ bytes "\",\"reject_reason\":\""
        ∷ reject_to_str ord.reject_reason
        ∷ bytes "\"}"
        ∷ []))

  unfoldable pub order_item : ℕ → OrderRecord F → ℕ → ApiOrderItem
  unfolding status_to_str reject_to_str
  order_item id ord now = record {
    internal_id = id;
    status = status_to_str ord.status;
    reject_reason = reject_to_str ord.reject_reason;
    ts_ms = now;
  }

module _ {F Q : Type 0} where
  -- What follows once the order is in the core: it is listed, and goes out if it was accepted.
  unfoldable pub after_submit :
      ℕ
      → OrderRequest F
      → ℕ
      → OrderRecord F
      → ControlApiContext F Q
      → ControlApiContext F Q × Response
  unfolding order_item push_order push_event exchange_order order_response show_nat
  after_submit now req id ord ctx =
      let listed =
        push_event (bytes "manual_order id=" ++ show_nat id)
          (push_order (order_item id ord now) ctx) in
      (
        if is_accepted ord.status
            then record listed { sent = listed.sent ++ exchange_order req id ∷ [] }
            else listed,
        order_response id ord,
      )

module _ {F : Type 0} ⦃d : Double F⦄ ⦃t : DoubleText F⦄ where
  -- The order that a body asks for, of `symbol` if it names none.
  unfoldable pub read_order : Text → Text → OrderRequest F
  unfolding json_get_string json_get_number text_eq
  read_order symbol body = record {
    symbol = get_or_else (json_get_string body (bytes "symbol")) symbol;
    side =
        if text_eq (get_or_else (json_get_string body (bytes "side")) (bytes "BUY")) (bytes "SELL")
        then sell
        else buy;
    type =
        if text_eq (get_or_else (json_get_string body (bytes "type")) (bytes "MARKET"))
          (bytes "LIMIT")
        then limit
        else market;
    qty = get_or_else (json_get_number body (bytes "qty")) nought;
    limit_price = get_or_else (json_get_number body (bytes "price")) nought;
  }

module _ {F Q : Type 0} where
  -- Whether the order is in the core.
  unfoldable pub look_up :
      ℕ
      → OrderRequest F
      → ℕ
      → Option (OrderRecord F)
      → ControlApiContext F Q
      → ControlApiContext F Q × Response
  unfolding after_submit server_error
  look_up now req id none ctx = (
    ctx,
    server_error
        (bytes "{\"ok\":false,\"code\":\"E_INTERNAL\",\"error\":\"order missing after submit\"}"),
  )
  look_up now req id (some ord) ctx = after_submit now req id ord ctx

module _ {F Q : Type 0} ⦃d : Double F⦄ ⦃q : LogQueue F Q⦄ where
  unfoldable pub submit_order :
      Clock → OrderRequest F → ControlApiContext F Q → ControlApiContext F Q × Response
  unfolding submit_manual_order get_order look_up
  submit_order clock req ctx =
      let (core, id) = submit_manual_order clock.first clock.second ctx.core req in
      look_up clock.third req id (get_order core id) (record ctx { core = core })

module _ {F Q : Type 0} ⦃d : Double F⦄ ⦃t : DoubleText F⦄ ⦃q : LogQueue F Q⦄ where
  unfoldable pub post_order :
      Clock → Text → ControlApiContext F Q → ControlApiContext F Q × Response
  unfolding read_order submit_order bad_request
  post_order clock body ctx =
      let req = read_order ctx.cfg.symbol body in
      if d.le req.qty nought
      then (
        ctx,
        bad_request (bytes "{\"ok\":false,\"code\":\"E_BAD_QTY\",\"error\":\"qty must be > 0\"}"),
      )
      else submit_order clock req ctx

module _ {F Q : Type 0} ⦃d : Double F⦄ ⦃q : LogQueue F Q⦄ where
  unfoldable pub cancel_by_id :
      ℕ → Option F → ControlApiContext F Q → ControlApiContext F Q × Response
  unfolding cancel_order push_event bad_request success show_nat
  cancel_by_id now none ctx = (
    ctx,
    bad_request (
        bytes "{\"ok\":false,\"code\":\"E_BAD_REQUEST\",\"error\":\"internal_order_id required\"}"),
  )
  cancel_by_id now (some internal_id) ctx =
      let id = d.to_u64 internal_id in
      let (core, done) = cancel_order now ctx.core id in
      (
        push_event (bytes "manual_cancel id=" ++ show_nat id) (record ctx { core = core }),
        if done
            then success (bytes "{\"ok\":true,\"code\":\"OK\",\"status\":\"Cancelled\"}")
            else bad_request
                (bytes "{\"ok\":false,\"code\":\"E_CANCEL_FAILED\",\"error\":\"cancel failed\"}"),
      )

module _ {F Q : Type 0} ⦃d : Double F⦄ ⦃t : DoubleText F⦄ ⦃q : LogQueue F Q⦄ where
  unfoldable pub post_cancel :
      Clock → Text → ControlApiContext F Q → ControlApiContext F Q × Response
  unfolding json_get_number cancel_by_id
  post_cancel clock body ctx =
      cancel_by_id clock.first (json_get_number body (bytes "internal_order_id")) ctx

unfoldable pub order_items : List ApiOrderItem → List Text
unfolding joined show_nat
order_items [] = []
order_items (o ∷ rest) =
    joined (
      bytes "{\"internal_id\":"
      ∷ show_nat o.internal_id
      ∷ bytes ",\"status\":\""
      ∷ o.status
      ∷ bytes "\",\"reject_reason\":\""
      ∷ o.reject_reason
      ∷ bytes "\",\"ts_ms\":"
      ∷ show_nat o.ts_ms
      ∷ bytes "}"
      ∷ [])
    ∷ order_items rest

unfoldable pub event_items : List Text → List Text
event_items [] = []
event_items (e ∷ rest) = (b'"' ∷ e ++ b'"' ∷ []) ∷ event_items rest

-- The items in the envelope of the two lists.
unfoldable pub list_response : List Text → Response
unfolding joined comma_separated success
list_response items =
    success (joined (bytes "{\"ok\":true,\"items\":[" ∷ comma_separated items ∷ bytes "]}" ∷ []))

module _ {F Q : Type 0} where
  unfoldable pub get_orders : ControlApiContext F Q → Response
  unfolding order_items list_response
  get_orders ctx = list_response (order_items ctx.orders)

  unfoldable pub get_events : ControlApiContext F Q → Response
  unfolding event_items list_response
  get_events ctx = list_response (event_items ctx.events)
