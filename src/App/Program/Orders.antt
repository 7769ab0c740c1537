-- ===== src/App/Program/Orders.antt =====
-- The orders of the running program of main.cpp, with all of its threads.
use frog_quant.Prelude.{
  ℕ, ◌<◌, ◌≤◌, ◌^◌, ◌≡◌, refl, ap, ◌∙◌, sym, Option, none, some, List, [], ◌∷◌, ◌++◌, length, arith,
}
use frog_quant.Double.{Double, DoubleText}
use frog_quant.Logger.{LogQueue, Logger}
use frog_quant.Core.Trading.{get_order}
use frog_quant.Core.Trading.History
use frog_quant.Core.Trading.History.{Event, ticks, orders_in}
use frog_quant.Core.Trading.Ledger.{Numbered, position_of, new-run-IsReconciled}
use frog_quant.Grid.{on_price_tick}
use frog_quant.Control.{Request, Response, answer, serve_round}
use frog_quant.Control.Lifecycle
use frog_quant.Control.Lifecycle.{absent, testing, accepting, reading, left}
use frog_quant.App.Bootstrap.{BootstrapResult}
use frog_quant.App.Files.{Disk}
use frog_quant.App.Context.{ControlApiContext, Clock}
use frog_quant.App.Server.{router}
use frog_quant.App.Main
use frog_quant.App.Main.{Input, request, initial_context}
use frog_quant.App.Main.Calls.{
  calls, run-calls, calls-orders, orders_in-append, push_intents-core, run-append_history,
}
use frog_quant.App.Program.{
  Program, Action, Stage, main_moves, ws_tests, rest_tests, ws_handles, rest_handles, closes,
  server_tests, server_throws, connects, reads, fetches, accepts, receives, running,
  joining_service, joining_server, joined, Handling, returned, counting, stamping, pricing,
  planning, handled, main_step, launch, step, run,
}

module _ {F : Type 0} where
  -- The call of the core in a turn of the tick handler.
  abbrev pub handler_calls : Handling F → List (Event F)
  handler_calls (pricing clock m) = ticks clock.second m ∷ []
  handler_calls _ = []

  handler_calls-orders : (h : Handling F) → orders_in (handler_calls h) ≤ 1
  handler_calls-orders returned = omega arith
  handler_calls-orders (counting clock m) = omega arith
  handler_calls-orders (stamping clock m) = omega arith
  handler_calls-orders (pricing clock m) = omega arith
  handler_calls-orders (planning clock m) = omega arith

  -- A request that is read by a server that waits for one.
  abbrev pub requests_of : Option (Clock × Request) → Lifecycle.Phase → List (Input F)
  requests_of (some (clock, req)) reading = request clock req.method req.target req.body ∷ []
  requests_of _ p = []

module _ {F Q : Type 0} ⦃d : Double F⦄ ⦃t : DoubleText F⦄ ⦃q : LogQueue F Q⦄ where
  -- The calls of the core's methods that one turn makes, and those of all turns.
  unfoldable pub calls_in : Program F Q → Action F → List (Event F)
  unfolding calls
  calls_in p ws_handles = handler_calls p.ws_handling
  calls_in p rest_handles = handler_calls p.rest_handling
  calls_in p (receives outcome) = calls (requests_of outcome p.server.phase) p.ctx
  calls_in p _ = []

  unfoldable pub core_calls : Program F Q → List (Action F) → List (Event F)
  unfolding calls_in
  core_calls p [] = []
  core_calls p (a ∷ rest) = calls_in p a ++ core_calls (step p a) rest

  handled-core :
      (h : Handling F) (ctx : ControlApiContext F Q)
      → (handled h ctx).core ≡ History.run ctx.core (handler_calls h)
  unfolding handled History.run History.handle
  handled-core returned ctx = refl
  handled-core (counting clock m) ctx = refl
  handled-core (stamping clock m) ctx = refl
  handled-core (pricing clock m) ctx = refl
  handled-core (planning clock m) ctx =
      let r = on_price_tick ctx.grid m.price in
      ground (arith, push_intents-core r.1 (record ctx { grid = r.0 }))

  read-core :
      (outcome : Option (Clock × Request)) (p : Lifecycle.Phase) (ctx : ControlApiContext F Q)
      (out : List Response)
      → (Lifecycle.read router outcome p (ctx, out)).1.core
        ≡ History.run ctx.core (calls (requests_of outcome p) ctx)
  unfolding Lifecycle.read Main.run Main.after router serve_round answer calls History.run
  read-core none absent ctx out = refl
  read-core none testing ctx out = refl
  read-core none accepting ctx out = refl
  read-core none reading ctx out = refl
  read-core none left ctx out = refl
  read-core (some r) absent ctx out = refl
  read-core (some r) testing ctx out = refl
  read-core (some r) accepting ctx out = refl
  read-core (some (clock, req)) reading ctx out =
      run-calls (request clock req.method req.target req.body ∷ []) ctx
  read-core (some r) left ctx out = refl

  main_step-ctx : (s : Stage) (p : Program F Q) → (main_step s p).ctx ≡ p.ctx
  unfolding main_step
  main_step-ctx running p = refl
  main_step-ctx joining_service p = ground arith
  main_step-ctx joining_server p = ground arith
  main_step-ctx joined p = refl

  step-core :
      (p : Program F Q) (a : Action F) → (step p a).ctx.core ≡ History.run p.ctx.core (calls_in p a)
  unfolding step calls_in History.run
  step-core p main_moves = ap (λ c. c.core) (main_step-ctx p.stage p)
  step-core p ws_tests = refl
  step-core p rest_tests = refl
  step-core p ws_handles = handled-core p.ws_handling p.ctx
  step-core p rest_handles = handled-core p.rest_handling p.ctx
  step-core p closes = refl
  step-core p server_tests = refl
  step-core p server_throws = refl
  step-core p (connects opened) = refl
  step-core p (reads clock now message) = refl
  step-core p (fetches clock m) = refl
  step-core p (accepts outcome) = refl
  step-core p (receives outcome) = read-core outcome p.server.phase p.ctx p.answers

  run-core :
      (p : Program F Q) (acts : List (Action F))
      → (run p acts).ctx.core ≡ History.run p.ctx.core (core_calls p acts)
  unfolding run core_calls History.run
  run-core p [] = refl
  run-core p (a ∷ rest) =
      run-core (step p a) rest
      ∙ ap (λ c. History.run c (core_calls (step p a) rest)) (step-core p a)
      ∙ sym (run-append_history p.ctx.core (calls_in p a) (core_calls (step p a) rest))

  requests_of-orders :
      (outcome : Option (Clock × Request)) (p : Lifecycle.Phase) (ctx : ControlApiContext F Q)
      → orders_in (calls (requests_of outcome p) ctx) ≤ 1
  unfolding calls
  requests_of-orders none p ctx = ground arith
  requests_of-orders (some r) absent ctx = omega arith
  requests_of-orders (some r) testing ctx = omega arith
  requests_of-orders (some r) accepting ctx = omega arith
  requests_of-orders (some (clock, req)) reading ctx =
      omega (arith, calls-orders (request clock req.method req.target req.body ∷ []) ctx)
  requests_of-orders (some r) left ctx = omega arith

  calls_in-orders : (p : Program F Q) (a : Action F) → orders_in (calls_in p a) ≤ 1
  unfolding calls_in
  calls_in-orders p ws_handles = handler_calls-orders p.ws_handling
  calls_in-orders p rest_handles = handler_calls-orders p.rest_handling
  calls_in-orders p (receives outcome) = requests_of-orders outcome p.server.phase p.ctx
  calls_in-orders p _ = omega arith

  -- A turn submits at most one order.
  core_calls-orders :
      (p : Program F Q) (acts : List (Action F)) → orders_in (core_calls p acts) ≤ length acts
  unfolding core_calls
  core_calls-orders p [] = omega arith
  core_calls-orders p (a ∷ rest) = omega (
    arith,
    orders_in-append (calls_in p a) (core_calls (step p a) rest),
    calls_in-orders p a,
    core_calls-orders (step p a) rest,
  )

  -- From the start of the program, however its threads take their turns, in fewer than 2^64 turns:
  -- the orders in the core have the ids 1, 2, … one for each that a request submitted, and the
  -- position in the account is the sum of quantity times price over the buys that were not rejected,
  -- the cancelled ones included.
  pub threads-IsReconciled :
      (bs : BootstrapResult F) (start_ms : ℕ) (disk : Disk) (logger : Logger Q)
      (acts : List (Action F))
      → length acts < 2 ^ 64
      → let ctx = initial_context bs start_ms disk logger in
        let c = (run (launch ctx) acts).ctx.core in
        (c.seq ≡ orders_in (core_calls (launch ctx) acts))
        × Numbered c
        × (c.account.position_notional_usd
            ≡ position_of (get_order c) (orders_in (core_calls (launch ctx) acts)))
  unfolding initial_context launch
  threads-IsReconciled bs start_ms disk logger acts few =
      let ctx : ControlApiContext F Q = initial_context bs start_ms disk logger in
      let events = core_calls (launch ctx) acts in
      rw (run-core (launch ctx) acts) (
        new-run-IsReconciled ctx.risk_cfg logger events
          (omega (arith, core_calls-orders (launch ctx) acts)))
