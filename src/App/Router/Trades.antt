-- ===== src/App/Router/Trades.antt =====
-- What the route for manual orders does to the state that the threads share.
use frog_quant.Prelude.{
  ltb, length, drop, min, ℕ, ◌≡◌, refl, true, false, Option, none, some, [], ◌∷◌, ◌++◌, Text, arith,
  is_some, if◌then◌else◌, ==_self, bytes, show_nat,
}
use frog_quant.Double.{Double, DoubleText, nought}
use frog_quant.Logger.{LogQueue}
use frog_quant.Core.Orders.{
  OrderRequest, OrderRecord, RejectReason, is_none, no_reason, max_single_order_notional,
  max_position_ratio, daily_loss_stop, price_unavailable, market, limit,
}
use frog_quant.App.Format.{joined, status_to_str, reject_to_str}
use frog_quant.Core.Trading.{submit_manual_order, get_order}
use frog_quant.Core.Trading.Outcome.{
  next_id, order_for, verdict, decided, submit_manual_order_lem, get_order-submit_manual_order,
}
use frog_quant.App.Context.{ControlApiContext, Clock, push_event, push_order, pushed_order}
use frog_quant.App.Handlers.{bad_request, success}
use frog_quant.App.Trade.{
  post_order, submit_order, look_up, after_submit, read_order, exchange_order, order_response,
  order_item, client_order_id,
}

-- The words of the interface for a decision.
abbrev pub status_text : RejectReason → Text
status_text no_reason = bytes "Accepted"
status_text _ = bytes "Rejected"

abbrev pub reason_text : RejectReason → Text
reason_text no_reason = bytes "None"
reason_text max_single_order_notional = bytes "MaxSingleOrderNotional"
reason_text max_position_ratio = bytes "MaxPositionRatio"
reason_text daily_loss_stop = bytes "DailyLossStop"
reason_text price_unavailable = bytes "PriceUnavailable"

-- The answer to an order with an id: the decision on it.
unfoldable pub answer_text : ℕ → RejectReason → Text
answer_text id rr =
    bytes "{\"ok\":true,\"code\":\"OK\",\"internal_order_id\":"
    ++ (show_nat id
        ++ (bytes ",\"status\":\""
            ++ (status_text rr
                ++ (bytes "\",\"reject_reason\":\"" ++ (reason_text rr ++ bytes "\"}")))))

status_to_str-decided :
    {F : Type 0} (order : OrderRecord F) (rr : RejectReason)
    → status_to_str (decided order rr).status ≡ status_text rr
unfolding status_to_str
status_to_str-decided order no_reason = refl
status_to_str-decided order max_single_order_notional = refl
status_to_str-decided order max_position_ratio = refl
status_to_str-decided order daily_loss_stop = refl
status_to_str-decided order price_unavailable = refl

reject_to_str_lem : (rr : RejectReason) → reject_to_str rr ≡ reason_text rr
unfolding reject_to_str
reject_to_str_lem no_reason = refl
reject_to_str_lem max_single_order_notional = refl
reject_to_str_lem max_position_ratio = refl
reject_to_str_lem daily_loss_stop = refl
reject_to_str_lem price_unavailable = refl

module _ {F : Type 0} where
  order_response_lem :
      (id : ℕ) (order : OrderRecord F) (rr : RejectReason)
      → let resp = order_response id (decided order rr) in
        (resp.status ≡ 200) × (resp.body ≡ answer_text id rr)
  unfolding order_response success joined answer_text
  order_response_lem id order rr =
      rw (status_to_str-decided order rr, reject_to_str_lem rr) (refl, refl)

module _ {F Q : Type 0} where
  look_up-status :
      (now : ℕ) (req : OrderRequest F) (id : ℕ) (found : Option (OrderRecord F))
      (ctx : ControlApiContext F Q)
      → is_some found ≡ true
      → (look_up now req id found ctx).1.status ≡ 200
  unfolding look_up after_submit order_response success
  look_up-status now req id none ctx h = ground arith
  look_up-status now req id (some ord) ctx h = refl

module _ {F Q : Type 0} ⦃d : Double F⦄ ⦃t : DoubleText F⦄ ⦃q : LogQueue F Q⦄ where
  -- A manual order is answered with the status 200, or with 400 if its quantity is not positive:
  -- the order is always found after it was submitted, and `E_INTERNAL` is never sent.
  pub post_order-status :
      (clock : Clock) (body : Text) (ctx : ControlApiContext F Q)
      → (post_order clock body ctx).1.status
        ≡ (if d.le (read_order {F = F} ctx.cfg.symbol body).qty nought then 400 else 200)
  unfolding post_order submit_order bad_request
  post_order-status clock body ctx =
      let req = read_order {F = F} ctx.cfg.symbol body in
      let r = submit_manual_order clock.first clock.second ctx.core req in
      ground (
        arith,
        look_up-status clock.third req r.1 (get_order r.0 r.1) (record ctx { core = r.0 })
            (get_order-submit_manual_order clock.first clock.second ctx.core req),
      )

  -- The order is found as it was decided.
  submit_order_lem :
      (clock : Clock) (req : OrderRequest F) (ctx : ControlApiContext F Q)
      → get_order ctx.core (next_id ctx.core) ≡ none
      → let order = order_for clock.first ctx.core req in
        submit_order clock req ctx
        ≡ after_submit clock.third req
            (next_id ctx.core)
            (decided order (verdict ctx.core order))
            (record ctx { core = (submit_manual_order clock.first clock.second ctx.core req).0 })
  unfolding submit_order look_up
  submit_order_lem clock req ctx free =
      let h = submit_manual_order_lem clock.first clock.second ctx.core req free in
      ground (arith, h.0, h.2 (next_id ctx.core), ==_self (next_id ctx.core))

  -- A manual order of a quantity that is not refused, under an id that is not taken: the answer has
  -- the status 200 and names the id, the decision and its reason. The list of orders gets an entry
  -- of the same, and loses its oldest entries if it is then longer than its bound. The order goes to
  -- the exchange exactly if the decision accepts it, as it was read from the body, with a price
  -- exactly if it is a limit order, and under the client order id of `qt_` and its number. The core
  -- is the one that has submitted it. The grid and the limits do not change.
  pub post_order_lem :
      (clock : Clock) (body : Text) (ctx : ControlApiContext F Q)
      → d.le (read_order {F = F} ctx.cfg.symbol body).qty nought ≡ false
      → get_order ctx.core (next_id ctx.core) ≡ none
      → let req = read_order {F = F} ctx.cfg.symbol body in
        let id = next_id ctx.core in
        let order = order_for clock.first ctx.core req in
        let rr = verdict ctx.core order in
        let listed =
          ctx.orders
          ++ record {
            internal_id = id;
            status = status_text rr;
            reject_reason = reason_text rr;
            ts_ms = clock.third;
          }
            ∷ [] in
        let (ctx', resp) = post_order clock body ctx in
        (resp.status ≡ 200)
        × (resp.body ≡ answer_text id rr)
        × (ctx'.core ≡ (submit_manual_order clock.first clock.second ctx.core req).0)
        × (ctx'.orders ≡ (
            if ltb ctx.max_orders (length listed)
            then drop (min ctx.order_trim_batch (length listed)) listed
            else listed))
        × (ctx'.sent ≡ (
            if is_none rr
            then ctx.sent
              ++ record {
                symbol = req.symbol;
                side = req.side;
                type = req.type;
                qty = req.qty;
                price = elim req.type [ limit ↦ some req.limit_price | market ↦ none ];
                client_order_id = bytes "qt_" ++ show_nat id;
              }
                ∷ []
            else ctx.sent))
        × (ctx'.grid ≡ ctx.grid)
        × (ctx'.risk_cfg ≡ ctx.risk_cfg)
  unfolding post_order after_submit push_event push_order pushed_order order_item exchange_order
      client_order_id
  post_order_lem clock body ctx positive free =
      let req = read_order ctx.cfg.symbol body in
      let id = next_id ctx.core in
      let order = order_for clock.first ctx.core req in
      let rr = verdict ctx.core order in
      let h = submit_order_lem clock req ctx free in
      let said = order_response_lem id order rr in
      let word = status_to_str-decided order rr in
      let reason = reject_to_str_lem rr in
      (
        ground (arith, h, said),
        ground (arith, h, said),
        ground (arith, h),
        ground (arith, h, word, reason),
        ground (arith, h),
        ground (arith, h),
        ground (arith, h),
      )
