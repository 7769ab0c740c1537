-- ===== src/App/Router/Refusals.antt =====
-- Requests that leave the trading state alone: those that only read, and those that are refused.
use frog_quant.Prelude.{
  ◌≡◌, refl, Bool, true, false, Option, some, Text, bytes, text_eq, arith, Option-cases, inl, inr,
  if◌then◌else◌, ◌==◌,
}
use frog_quant.Double.{Double, DoubleText}
use frog_quant.Logger.{LogQueue}
use frog_quant.App.Context.{ControlApiContext, Clock, push_event}
use frog_quant.Control.{Response}
use frog_quant.App.Handlers.{
  post_credentials, post_enable, set_enabled, bad_request, success, server_error,
}
use frog_quant.App.Updates.{post_grid, post_risk}
use frog_quant.App.Trade.{post_order, post_cancel, cancel_by_id}
use frog_quant.Core.Trading.{cancel_order}
use frog_quant.App.Router.Trades.{post_order-status}
use frog_quant.App.Router.{
  Command, Route, View, route_of, view, command, route, handle, obey, update_credentials, enable,
  update_grid, update_risk, place_order, cancel,
}

-- No route changes anything unless the method is POST.
abbrev is_command : Option Route → Bool
is_command (some (command c)) = true
is_command _ = false

is_command-if :
    (b : Bool) (v : View) (r : Option Route)
    → is_command r ≡ false
    → is_command (if b then some (view v) else r) ≡ false
is_command-if b v r h = ground arith

route_of-only_post : (get : Bool) (target : Text) → is_command (route_of get false target) ≡ false
unfolding route_of
route_of-only_post true target = search is_command-if depth 9
route_of-only_post false target = refl

route-only_post :
    (method target : Text)
    → text_eq method (bytes "POST") ≡ false
    → is_command (route method target) ≡ false
unfolding route
route-only_post method target h = rw h (route_of-only_post (text_eq method (bytes "GET")) target)

module _ {F Q : Type 0} where
  -- The second context has the trading state of the first.
  pub record IsUntouched (ctx ctx' : ControlApiContext F Q) : Type 0 where
    pub orders_on_record : ctx'.core.oms ≡ ctx.core.oms
    pub account : ctx'.core.account ≡ ctx.core.account
    pub last_price : ctx'.core.last_price ≡ ctx.core.last_price
    pub limits : ctx'.core.risk ≡ ctx.core.risk
    pub risk_cfg : ctx'.risk_cfg ≡ ctx.risk_cfg
    pub grid : ctx'.grid ≡ ctx.grid
    pub strategy_enabled : ctx'.strategy_enabled ≡ ctx.strategy_enabled
    pub orders : ctx'.orders ≡ ctx.orders
    pub sent : ctx'.sent ≡ ctx.sent

  untouched : (ctx : ControlApiContext F Q) → IsUntouched ctx ctx
  untouched ctx = record {
    orders_on_record = refl;
    account = refl;
    last_price = refl;
    limits = refl;
    risk_cfg = refl;
    grid = refl;
    strategy_enabled = refl;
    orders = refl;
    sent = refl;
  }

module _ {F Q : Type 0} ⦃d : Double F⦄ ⦃t : DoubleText F⦄ ⦃q : LogQueue F Q⦄ where
  -- A request whose method is not POST changes nothing.
  pub handle-read_only :
      (clock : Clock) (method target body : Text) (ctx : ControlApiContext F Q)
      → text_eq method (bytes "POST") ≡ false
      → (handle clock method target body ctx).0 ≡ ctx
  unfolding handle
  handle-read_only clock method target body ctx h = elim (Option-cases (route method target)) [
    | inl is_none ↦ ground arith
    | inr (view v, is_v) ↦ ground arith
    | inr (command c, is_c) ↦ ground (arith, route-only_post method target h)
  ]

  obey-refused :
      (c : Command) (clock : Clock) (body : Text) (ctx : ControlApiContext F Q)
      → ((obey c clock body ctx).1.status == 200) ≡ false
      → IsUntouched ctx (obey c clock body ctx).0
  unfolding obey post_credentials post_enable set_enabled post_grid post_risk post_order post_cancel
      cancel_by_id cancel_order bad_request success server_error push_event
  obey-refused update_credentials clock body ctx h = ground (arith, untouched ctx)
  obey-refused enable clock body ctx h = ground (arith, untouched ctx)
  obey-refused update_grid clock body ctx h = ground (arith, untouched ctx)
  obey-refused update_risk clock body ctx h = ground (arith, untouched ctx)
  obey-refused place_order clock body ctx h =
      ground (arith, untouched ctx, post_order-status clock body ctx)
  obey-refused cancel clock body ctx h = ground (arith, untouched ctx)

  -- A request that is answered with a status other than 200 leaves the orders on record, the
  -- account, the limits, the grid, the switch of the strategy, the list of orders and the orders
  -- sent to the exchange as they are.
  pub handle-refused :
      (clock : Clock) (method target body : Text) (ctx : ControlApiContext F Q) (resp : Response)
      → (handle clock method target body ctx).1 ≡ some resp
      → (resp.status == 200) ≡ false
      → IsUntouched ctx (handle clock method target body ctx).0
  unfolding handle
  handle-refused clock method target body ctx resp e h = elim (Option-cases (route method target)) [
    | inl is_none ↦ ground (arith, untouched ctx)
    | inr (view v, is_v) ↦ ground (arith, untouched ctx)
    | inr (command c, is_c) ↦ ground (arith, obey-refused c clock body ctx)
  ]
