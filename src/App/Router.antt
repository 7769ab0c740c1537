-- ===== src/App/Router.antt =====
-- The handler of app/control_api_router.cpp: which route a request takes, and what the route does.
pub mod Bounds
pub mod Trades
pub mod Grids
pub mod Refusals
use frog_quant.Prelude.{
  ℕ, Bool, true, false, ◌&&◌, Option, none, some, List, [], ◌∷◌, Text, bytes, if◌then◌else◌,
  text_eq,
}
use frog_quant.Double.{Double, DoubleText}
use frog_quant.Logger.{LogQueue}
use frog_quant.Strings.{starts_with}
use frog_quant.App.Context.{ControlApiContext, Clock}
use frog_quant.Control.{Response}
use frog_quant.App.Handlers.{
  get_health, get_runtime, get_config, get_credentials, get_risk, post_credentials, post_enable,
}
use frog_quant.App.Updates.{post_grid, post_risk}
use frog_quant.App.Trade.{post_order, post_cancel, get_orders, get_events}

pub data View : Type 0 where
  health runtime effective credentials_status risk_config order_list event_list : View

pub data Command : Type 0 where
  update_credentials enable update_grid update_risk place_order cancel : Command

pub data Route : Type 0 where
  view : View → Route
  command : Command → Route

-- The conditions of the handler, in their order, for a method that is GET, POST or neither.
unfoldable pub route_of : (get post : Bool) → Text → Option Route
unfolding text_eq starts_with
route_of get post target =
    if get && text_eq target (bytes "/health")
    then some (view health)
    else if get && text_eq target (bytes "/strategy/grid/runtime")
    then some (view runtime)
    else if get && text_eq target (bytes "/config/effective")
    then some (view effective)
    else if get && text_eq target (bytes "/credentials/status")
    then some (view credentials_status)
    else if post && text_eq target (bytes "/credentials/update")
    then some (command update_credentials)
    else if post && text_eq target (bytes "/strategy/grid/enable")
    then some (command enable)
    else if post && text_eq target (bytes "/strategy/grid/config")
    then some (command update_grid)
    else if get && text_eq target (bytes "/risk/config")
    then some (view risk_config)
    else if post && text_eq target (bytes "/risk/config")
    then some (command update_risk)
    else if post && text_eq target (bytes "/trade/manual/order")
    then some (command place_order)
    else if post && text_eq target (bytes "/trade/manual/cancel")
    then some (command cancel)
    else if get && starts_with (bytes "/orders") target
    then some (view order_list)
    else if get && starts_with (bytes "/events") target
    then some (view event_list)
    else none

unfoldable pub route : Text → Text → Option Route
unfolding text_eq route_of
route method target = route_of (text_eq method (bytes "GET")) (text_eq method (bytes "POST")) target

module _ {F Q : Type 0} ⦃t : DoubleText F⦄ where
  unfoldable pub show_view : View → ℕ → ControlApiContext F Q → Response
  unfolding get_health get_runtime get_config get_credentials get_risk get_orders get_events
  show_view health now ctx = get_health now ctx
  show_view runtime now ctx = get_runtime ctx
  show_view effective now ctx = get_config ctx
  show_view credentials_status now ctx = get_credentials ctx
  show_view risk_config now ctx = get_risk ctx
  show_view order_list now ctx = get_orders ctx
  show_view event_list now ctx = get_events ctx

module _ {F Q : Type 0} ⦃d : Double F⦄ ⦃t : DoubleText F⦄ ⦃q : LogQueue F Q⦄ where
  unfoldable pub obey :
      Command → Clock → Text → ControlApiContext F Q → ControlApiContext F Q × Response
  unfolding post_credentials post_enable post_grid post_risk post_order post_cancel
  obey update_credentials clock body ctx = post_credentials body ctx
  obey enable clock body ctx = post_enable body ctx
  obey update_grid clock body ctx = post_grid body ctx
  obey update_risk clock body ctx = post_risk body ctx
  obey place_order clock body ctx = post_order clock body ctx
  obey cancel clock body ctx = post_cancel clock body ctx

  -- `none` stands for `return false`: the request is not handled.
  unfoldable pub handle :
      Clock
      → (method target body : Text) → ControlApiContext F Q
      → ControlApiContext F Q × Option Response
  unfolding route show_view obey
  handle clock method target body ctx = elim (route method target) [
    | none ↦ (ctx, none)
    | some (view v) ↦ (ctx, some (show_view v clock.first ctx))
    | some (command c) ↦ let (ctx', resp) = obey c clock body ctx in (ctx', some resp)
  ]
