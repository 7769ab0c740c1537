-- ===== src/App/Server.antt =====
-- The router behind the HTTP server, as main.cpp puts them together.
use frog_quant.Prelude.{
  ℕ, ◌+◌, ◌≡◌, refl, Bool, true, false, ◌||◌, Option, none, some, is_some, not, List, [], ◌∷◌, ◌++◌,
  Text, arith, length, length-append, ◌==◌,
}
use frog_quant.Double.{Double, DoubleText}
use frog_quant.Logger.{LogQueue}
use frog_quant.Control.{
  Response, Request, Round, Handler, would_block, accept_failed, read_failed, received, answer,
  serve, not_found, or_not_found,
}
use frog_quant.App.Context.{ControlApiContext, Clock}
use frog_quant.App.Handlers.{
  get_health, get_runtime, get_config, get_credentials, get_risk, post_credentials, post_enable,
  set_enabled, bad_request, server_error, success,
}
use frog_quant.App.Updates.{post_grid, post_risk}
use frog_quant.App.Trade.{get_orders, get_events, list_response, post_cancel, cancel_by_id}
use frog_quant.App.Router.{
  Command, View, health, update_credentials, enable, update_grid, update_risk, place_order, cancel,
  Route, view, command, route, handle, show_view, obey,
}
use frog_quant.App.Router.Trades.{post_order-status}
use frog_quant.App.Main.{Input, request, run}

-- The codes with which a route answers.
abbrev pub is_route_status : ℕ → Bool
is_route_status n = n == 200 || (n == 400 || (n == 500 || n == 503))

route_status-ne_404 : (n : ℕ) → is_route_status n ≡ true → (n == 404) ≡ false
route_status-ne_404 n h = ground arith

module _ {F : Type 0} where
  -- The requests of the rounds, as inputs of the program.
  abbrev pub inputs_of : List (Round Clock) → List (Input F)
  inputs_of [] = []
  inputs_of (received clock req ∷ rest) =
      request clock req.method req.target req.body ∷ inputs_of rest
  inputs_of (would_block ∷ rest) = inputs_of rest
  inputs_of (accept_failed ∷ rest) = inputs_of rest
  inputs_of (read_failed ∷ rest) = inputs_of rest

module _ {F Q : Type 0} ⦃t : DoubleText F⦄ where
  show_view-status :
      (v : View) (now : ℕ) (ctx : ControlApiContext F Q)
      → is_route_status (show_view v now ctx).status ≡ true
  unfolding show_view get_health get_runtime get_config get_credentials get_risk get_orders
      get_events list_response success
  show_view-status health now ctx = ground arith
  show_view-status v now ctx = refl

module _ {F Q : Type 0} ⦃d : Double F⦄ ⦃t : DoubleText F⦄ ⦃q : LogQueue F Q⦄ where
  unfoldable pub router : Handler Clock (ControlApiContext F Q)
  unfolding handle
  router clock req ctx = handle clock req.method req.target req.body ctx

  obey-status :
      (c : Command) (clock : Clock) (body : Text) (ctx : ControlApiContext F Q)
      → is_route_status (obey c clock body ctx).1.status ≡ true
  unfolding obey post_credentials post_enable set_enabled post_grid post_risk post_cancel
      cancel_by_id bad_request server_error success
  obey-status update_credentials clock body ctx = ground arith
  obey-status enable clock body ctx = ground arith
  obey-status update_grid clock body ctx = ground arith
  obey-status update_risk clock body ctx = ground arith
  obey-status place_order clock body ctx = ground (arith, post_order-status clock body ctx)
  obey-status cancel clock body ctx = ground arith

  -- What the handler answers on a route.
  answered : Clock → Request → ControlApiContext F Q → Option Route → Option Response
  answered clock req ctx none = none
  answered clock req ctx (some (view v)) = some (show_view v clock.first ctx)
  answered clock req ctx (some (command c)) = some (obey c clock req.body ctx).1

  handle-answered :
      (clock : Clock) (req : Request) (ctx : ControlApiContext F Q) (r : Option Route)
      → route req.method req.target ≡ r
      → (handle clock req.method req.target req.body ctx).1 ≡ answered clock req ctx r
  unfolding answered handle
  handle-answered clock req ctx none e = rw (e, handle) refl
  handle-answered clock req ctx (some (view v)) e = rw (e, handle) refl
  handle-answered clock req ctx (some (command c)) e = rw (e, handle) refl

  answered-status :
      (clock : Clock) (req : Request) (ctx : ControlApiContext F Q) (r : Option Route)
      → let resp = or_not_found (answered clock req ctx r) in
        ((resp.status == 404) ≡ not (is_some r)) × (is_route_status resp.status ≡ is_some r)
  unfolding answered not_found
  answered-status clock req ctx none = (refl, refl)
  answered-status clock req ctx (some (view v)) =
      let h = show_view-status v clock.first ctx in
      (route_status-ne_404 (show_view v clock.first ctx).status h, h)
  answered-status clock req ctx (some (command c)) =
      let h = obey-status c clock req.body ctx in
      (route_status-ne_404 (obey c clock req.body ctx).1.status h, h)

  -- The server answers with 404 exactly where no route takes the request, and every route answers
  -- with 200, 400, 500 or 503.
  pub answer-status :
      (clock : Clock) (req : Request) (ctx : ControlApiContext F Q)
      → let handled = is_some (route req.method req.target) in
        let resp = (answer router clock req ctx).1 in
        ((resp.status == 404) ≡ not handled) × (is_route_status resp.status ≡ handled)
  unfolding answer router
  answer-status clock req ctx =
      rw (handle-answered clock req ctx (route req.method req.target) refl)
        (answered-status clock req ctx (route req.method req.target))

  -- The server's rounds are a run of the program: the handler is called once for each request that
  -- is received, in their order, there are as many answers as requests, and a round that brings no
  -- request changes nothing.
  pub serve-run :
      (rounds : List (Round Clock)) (ctx : ControlApiContext F Q) (out : List Response)
      → ((serve router rounds (ctx, out)).0 ≡ run (inputs_of rounds) ctx)
        × (length (serve router rounds (ctx, out)).1
            ≡ length out + length (inputs_of {F = F} rounds))
  unfolding serve answer run router
  serve-run [] ctx out = (refl, omega arith)
  serve-run (received clock req ∷ rest) ctx out =
      let r = answer router clock req ctx in
      let more = serve-run rest r.0 (out ++ r.1 ∷ []) in
      (more.0, omega (arith, more.1, length-append out (r.1 ∷ [])))
  serve-run (would_block ∷ rest) ctx out = serve-run rest ctx out
  serve-run (accept_failed ∷ rest) ctx out = serve-run rest ctx out
  serve-run (read_failed ∷ rest) ctx out = serve-run rest ctx out
