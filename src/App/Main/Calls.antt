-- ===== src/App/Main/Calls.antt =====
-- The calls of `TradingCore` that the tick handler and the router make, and the core of the running
-- program as the core after those calls.
use frog_quant.Prelude.{
  ℕ, ◌+◌, ◌≤◌, length, ◌≡◌, refl, ap, sym, ◌∙◌, Option, none, some, List, [], ◌∷◌, ◌++◌, Text,
  bytes, arith, if◌then◌else◌,
}
use frog_quant.Double.{Double, DoubleText, nought}
use frog_quant.Logger.{LogQueue}
use frog_quant.Core.Orders.{OrderRequest, OrderRecord}
use frog_quant.Core.Trading.{TradingCore, submit_manual_order, get_order}
use frog_quant.Core.Trading.History
use frog_quant.Core.Trading.History.{Event, ticks, submits, cancels, configures, orders_in}
use frog_quant.Grid.{StrategyOrderIntent, on_price_tick}
use frog_quant.App.Json.{json_get_number}
use frog_quant.App.Context.{ControlApiContext, Clock, push_event, push_order}
use frog_quant.App.Handlers.{post_credentials, post_enable, set_enabled, saved}
use frog_quant.App.Updates.{post_grid, post_risk, is_out_of_range, patched_risk}
use frog_quant.App.Trade.{
  post_order, post_cancel, cancel_by_id, submit_order, look_up, after_submit, read_order,
}
use frog_quant.App.Router.{
  Command, Route, view, command, route, handle, obey, update_credentials, enable, update_grid,
  update_risk, place_order, cancel,
}
use frog_quant.App.Main.{Input, request, tick, push_intents, note_tick, on_market_tick, after, run}

module _ {F : Type 0} ⦃d : Double F⦄ where
  cancel_calls : ℕ → Option F → List (Event F)
  cancel_calls now none = []
  cancel_calls now (some internal_id) = cancels now (d.to_u64 internal_id) ∷ []

module _ {F Q : Type 0} ⦃d : Double F⦄ ⦃t : DoubleText F⦄ where
  -- The call that a command makes, if any.
  command_calls : Command → Clock → Text → ControlApiContext F Q → List (Event F)
  unfolding cancel_calls
  command_calls update_risk clock body ctx =
      let next = patched_risk body ctx.risk_cfg in
      if is_out_of_range next then [] else configures next ∷ []
  command_calls place_order clock body ctx =
      let req = read_order ctx.cfg.symbol body in
      if d.le req.qty nought then [] else submits clock.first clock.second req ∷ []
  command_calls cancel clock body ctx =
      cancel_calls clock.first (json_get_number body (bytes "internal_order_id"))
  command_calls _ clock body ctx = []

  route_calls : Option Route → Clock → Text → ControlApiContext F Q → List (Event F)
  unfolding command_calls
  route_calls (some (command c)) clock body ctx = command_calls c clock body ctx
  route_calls _ clock body ctx = []

  unfoldable pub calls_by : Input F → ControlApiContext F Q → List (Event F)
  unfolding route_calls route
  calls_by (request clock method target body) ctx = route_calls (route method target) clock body ctx
  calls_by (tick clock m) ctx = ticks clock.second m ∷ []

module _ {F : Type 0} where
  pub orders_in-append :
      (xs ys : List (Event F)) → orders_in (xs ++ ys) ≡ orders_in xs + orders_in ys
  orders_in-append [] ys = omega arith
  orders_in-append (ticks now m ∷ xs) ys = orders_in-append xs ys
  orders_in-append (submits created now req ∷ xs) ys = omega (arith, orders_in-append xs ys)
  orders_in-append (cancels now id ∷ xs) ys = orders_in-append xs ys
  orders_in-append (configures cfg ∷ xs) ys = orders_in-append xs ys

module _ {F Q : Type 0} where
  pub push_intents-core :
      (its : List (StrategyOrderIntent F)) (ctx : ControlApiContext F Q)
      → (push_intents its ctx).core ≡ ctx.core
  unfolding push_intents push_event
  push_intents-core [] ctx = refl
  push_intents-core (it ∷ rest) ctx = push_intents-core rest _

  look_up-core :
      (now : ℕ) (req : OrderRequest F) (id : ℕ) (found : Option (OrderRecord F))
      (ctx : ControlApiContext F Q)
      → (look_up now req id found ctx).0.core ≡ ctx.core
  unfolding look_up after_submit push_event push_order
  look_up-core now req id none ctx = refl
  look_up-core now req id (some ord) ctx = ground arith

module _ {F Q : Type 0} ⦃d : Double F⦄ ⦃t : DoubleText F⦄ ⦃q : LogQueue F Q⦄ where
  cancel-core :
      (now : ℕ) (id : Option F) (ctx : ControlApiContext F Q)
      → (cancel_by_id now id ctx).0.core ≡ History.run ctx.core (cancel_calls now id)
  unfolding cancel_by_id push_event History.run History.handle cancel_calls
  cancel-core now none ctx = refl
  cancel-core now (some id) ctx = refl

  obey-core :
      (c : Command) (clock : Clock) (body : Text) (ctx : ControlApiContext F Q)
      → (obey c clock body ctx).0.core ≡ History.run ctx.core (command_calls c clock body ctx)
  unfolding obey post_credentials post_enable set_enabled post_grid post_risk post_order
      submit_order post_cancel push_event saved command_calls History.run History.handle
  obey-core update_credentials clock body ctx = ground arith
  obey-core enable clock body ctx = ground arith
  obey-core update_grid clock body ctx = ground arith
  obey-core update_risk clock body ctx = ground arith
  obey-core place_order clock body ctx =
      let req = read_order ctx.cfg.symbol body in
      let r = submit_manual_order clock.first clock.second ctx.core req in
      ground
        (arith, look_up-core clock.third req r.1 (get_order r.0 r.1) (record ctx { core = r.0 }))
  obey-core cancel clock body ctx =
      cancel-core clock.first (json_get_number body (bytes "internal_order_id")) ctx

  route-core :
      (r : Option Route) (clock : Clock) (method target body : Text) (ctx : ControlApiContext F Q)
      → route method target ≡ r
      → (handle clock method target body ctx).0.core
        ≡ History.run ctx.core (route_calls r clock body ctx)
  unfolding handle route_calls History.run
  route-core none clock method target body ctx e = rw (e, handle) refl
  route-core (some (view v)) clock method target body ctx e = rw (e, handle) refl
  route-core (some (command c)) clock method target body ctx e =
      rw (e, handle) (obey-core c clock body ctx)

  after-core :
      (i : Input F) (ctx : ControlApiContext F Q)
      → (after i ctx).core ≡ History.run ctx.core (calls_by i ctx)
  unfolding after calls_by on_market_tick note_tick History.run History.handle
  after-core (request clock method target body) ctx =
      route-core (route method target) clock method target body ctx refl
  after-core (tick clock m) ctx =
      let r = on_price_tick ctx.grid m.price in
      ground (arith, push_intents-core r.1 (record (note_tick clock m ctx) { grid = r.0 }))

  -- All calls of a run.
  unfoldable pub calls : List (Input F) → ControlApiContext F Q → List (Event F)
  unfolding calls_by
  calls [] ctx = []
  calls (i ∷ is) ctx = calls_by i ctx ++ calls is (after i ctx)

  pub run-append_history :
      (c : TradingCore F Q) (xs ys : List (Event F))
      → History.run c (xs ++ ys) ≡ History.run (History.run c xs) ys
  unfolding History.run
  run-append_history c [] ys = refl
  run-append_history c (x ∷ xs) ys = run-append_history (History.handle c x) xs ys

  -- Whatever requests and ticks come in: the program's core is what its own methods make of it, a tick
  -- for each tick of the market, an order for each request of one with a quantity above 0, a
  -- cancellation for each request that names an id, and new limits for each request of limits that
  -- are in range, in the order in which they come in; no other route touches the core.
  pub run-calls :
      (is : List (Input F)) (ctx : ControlApiContext F Q)
      → (run is ctx).core ≡ History.run ctx.core (calls is ctx)
  unfolding run calls History.run
  run-calls [] ctx = refl
  run-calls (i ∷ is) ctx =
      run-calls is (after i ctx)
      ∙ ap (λ c. History.run c (calls is (after i ctx))) (after-core i ctx)
      ∙ sym (run-append_history ctx.core (calls_by i ctx) (calls is (after i ctx)))

  command_calls-orders :
      (c : Command) (clock : Clock) (body : Text) (ctx : ControlApiContext F Q)
      → orders_in (command_calls c clock body ctx) ≤ 1
  unfolding command_calls cancel_calls
  command_calls-orders update_credentials clock body ctx = omega arith
  command_calls-orders enable clock body ctx = omega arith
  command_calls-orders update_grid clock body ctx = omega arith
  command_calls-orders update_risk clock body ctx = ground arith
  command_calls-orders place_order clock body ctx = ground arith
  command_calls-orders cancel clock body ctx = ground arith

  route_calls-orders :
      (r : Option Route) (clock : Clock) (body : Text) (ctx : ControlApiContext F Q)
      → orders_in (route_calls r clock body ctx) ≤ 1
  unfolding route_calls
  route_calls-orders none clock body ctx = omega arith
  route_calls-orders (some (view v)) clock body ctx = omega arith
  route_calls-orders (some (command c)) clock body ctx = command_calls-orders c clock body ctx

  calls_by-orders : (i : Input F) (ctx : ControlApiContext F Q) → orders_in (calls_by i ctx) ≤ 1
  unfolding calls_by
  calls_by-orders (request clock method target body) ctx =
      route_calls-orders (route method target) clock body ctx
  calls_by-orders (tick clock m) ctx = omega arith

  pub calls-orders :
      (is : List (Input F)) (ctx : ControlApiContext F Q) → orders_in (calls is ctx) ≤ length is
  unfolding calls
  calls-orders [] ctx = omega arith
  calls-orders (i ∷ is) ctx = omega (
    arith,
    orders_in-append (calls_by i ctx) (calls is (after i ctx)),
    calls_by-orders i ctx,
    calls-orders is (after i ctx),
  )
