-- ===== src/App/Program.antt =====
-- main.cpp as a whole: the market data service and the HTTP server on their threads, and the main
-- thread, which waits, stops the one and then the other. They take turns, action by action. The tick
-- handler of app/runtime_loop.cpp takes four turns of its thread, between which any other thread may
-- take its own: the count, the time, the call of the core, and the part behind the switch of the
-- strategy, which holds a lock. A request is taken as a whole. What is left of `main` behind the
-- joins, the end of the logger, is in Logger/Worker.
pub mod Ticks
pub mod Gone
pub mod Stages
pub mod Shutdown
pub mod Rounds
pub mod Joins
pub mod Silence
pub mod Orders
use frog_quant.Prelude.{
  ℕ, ◌+◌, ◌%◌, ◌^◌, Bool, true, false, ◌||◌, Option, none, some, List, [], ◌∷◌, ◌++◌, Text,
  if◌then◌else◌,
}
use frog_quant.Double.{Double, DoubleText}
use frog_quant.Logger.{LogQueue}
use frog_quant.Core.Orders.{MarketTick}
use frog_quant.Market.Trades.{parse_trade_json}
use frog_quant.Market.Service.{Service, Phase, Polling, waiting, fetching, new_service, is_polling}
use frog_quant.Market.Service
use frog_quant.Control.{Request, Response}
use frog_quant.Control.Lifecycle.{Server, Accept, new_server}
use frog_quant.Control.Lifecycle
use frog_quant.App.Context.{ControlApiContext, Clock}
use frog_quant.App.Main.{push_intents}
use frog_quant.Core.Trading.{on_tick}
use frog_quant.Grid.{on_price_tick}
use frog_quant.App.Server.{router}

-- Where the main thread stands: in `run_until_stop`, in the join of the service, in that of the
-- server, or behind both.
pub data Stage : Type 0 where
  running joining_service joining_server joined : Stage

-- Where a market thread stands in the tick handler: it has returned, or it is about to take one of
-- the four turns.
pub data Handling (F : Type 0) : Type 0 where
  returned : Handling F
  counting stamping pricing planning : Clock → MarketTick F → Handling F

abbrev pub is_handling : {F : Type 0} → Handling F → Bool
is_handling returned = false
is_handling _ = true

pub record Program (F Q : Type 0) : Type 0 where
  pub stage : Stage
  pub service : Service F
  pub ws_handling : Handling F
  pub rest_handling : Handling F
  pub server : Server
  pub ctx : ControlApiContext F Q
  pub answers : List Response

-- The turns of the threads, with what the network and the clock bring.
pub data Action (F : Type 0) : Type 0 where
  main_moves : Action F
  ws_tests rest_tests ws_handles rest_handles closes server_tests server_throws : Action F
  connects : Bool → Action F
  reads : Clock → ℕ → Option Text → Action F
  fetches : Clock → Option (MarketTick F) → Action F
  accepts : Accept → Action F
  receives : Option (Clock × Request) → Action F

module _ {F Q : Type 0} where
  -- The threads are started, the server's first.
  unfoldable pub launch : ControlApiContext F Q → Program F Q
  unfolding Service.start new_service Lifecycle.start new_server
  launch ctx = record {
    stage = running;
    service = Service.start new_service;
    ws_handling = returned;
    rest_handling = returned;
    server = Lifecycle.start new_server;
    ctx = ctx;
    answers = [];
  }

  -- Whether a thread of the market is there, in its loop or in the tick handler.
  abbrev pub market_remains : Program F Q → Bool
  market_remains p =
      Service.is_present p.service.ws
      || (is_polling p.service.rest || (is_handling p.ws_handling || is_handling p.rest_handling))

  -- The main thread: the end of `run_until_stop` leads to `service.stop()`, the end of the market's
  -- threads to `control.stop()`.
  unfoldable pub main_step : Stage → Program F Q → Program F Q
  unfolding Service.stop Lifecycle.stop
  main_step running p = record p { stage = joining_service; service = Service.stop p.service }
  main_step joining_service p =
      if market_remains p
      then p
      else record p { stage = joining_server; server = Lifecycle.stop p.server }
  main_step joining_server p =
      if Lifecycle.is_present p.server.phase then p else record p { stage = joined }
  main_step joined p = p

module _ {F : Type 0} ⦃t : DoubleText F⦄ where
  -- The call of the tick handler that a read or a fetch makes.
  unfoldable pub heard : Option Text → ℕ → Phase → Option (MarketTick F)
  unfolding parse_trade_json
  heard (some json) now waiting = parse_trade_json now json
  heard _ now p = none

module _ {F : Type 0} where
  unfoldable pub fetched : Option (MarketTick F) → Polling → Option (MarketTick F)
  fetched m fetching = m
  fetched m p = none

module _ {F : Type 0} where
  -- A call of the handler begins.
  unfoldable pub called : Clock → Option (MarketTick F) → Handling F → Handling F
  called clock none h = h
  called clock (some m) h = counting clock m

  unfoldable pub next : Handling F → Handling F
  next returned = returned
  next (counting clock m) = stamping clock m
  next (stamping clock m) = pricing clock m
  next (pricing clock m) = planning clock m
  next (planning clock m) = returned

module _ {F Q : Type 0} ⦃d : Double F⦄ ⦃q : LogQueue F Q⦄ where
  -- What one turn of the handler does to the shared objects.
  unfoldable pub handled : Handling F → ControlApiContext F Q → ControlApiContext F Q
  unfolding on_tick on_price_tick push_intents
  handled returned ctx = ctx
  handled (counting clock m) ctx = record ctx { tick_count = (ctx.tick_count + 1) % 2 ^ 64 }
  handled (stamping clock m) ctx = record ctx { last_tick_ms = clock.first }
  handled (pricing clock m) ctx = record ctx { core = on_tick clock.second ctx.core m }
  handled (planning clock m) ctx =
      let (grid, intents) = on_price_tick ctx.grid m.price in
      if ctx.strategy_enabled then push_intents intents (record ctx { grid = grid }) else ctx

module _ {F Q : Type 0} ⦃d : Double F⦄ ⦃t : DoubleText F⦄ ⦃q : LogQueue F Q⦄ where
  unfoldable pub step : Program F Q → Action F → Program F Q
  unfolding main_step Service.step Lifecycle.test Lifecycle.throw Lifecycle.accept Lifecycle.read
      heard fetched called next handled router
  step p main_moves = main_step p.stage p
  step p ws_tests = record p {
    service =
        if is_handling p.ws_handling then p.service else Service.step p.service Service.ws_tests;
  }
  step p rest_tests = record p {
    service =
        if is_handling p.rest_handling
        then p.service
        else Service.step p.service Service.rest_tests;
  }
  step p ws_handles = record p {
    ws_handling = next p.ws_handling;
    ctx = handled p.ws_handling p.ctx;
  }
  step p rest_handles = record p {
    rest_handling = next p.rest_handling;
    ctx = handled p.rest_handling p.ctx;
  }
  step p closes = record p { service = Service.step p.service Service.closes }
  step p (connects opened) = record p { service = Service.step p.service (Service.connects opened) }
  step p (reads clock now message) = record p {
    service = Service.step p.service (Service.reads now message);
    ws_handling = called clock (heard message now p.service.ws) p.ws_handling;
  }
  step p (fetches clock m) = record p {
    service = Service.step p.service (Service.fetches m);
    rest_handling = called clock (fetched m p.service.rest) p.rest_handling;
  }
  step p server_tests = record p {
    server = record (p.server) { phase = Lifecycle.test p.server.running p.server.phase };
  }
  step p server_throws = record p {
    server = record (p.server) { phase = Lifecycle.throw p.server.phase };
  }
  step p (accepts outcome) = record p {
    server = record (p.server) { phase = Lifecycle.accept outcome p.server.phase };
  }
  step p (receives outcome) =
      let (phase, ctx, answers) = Lifecycle.read router outcome p.server.phase (p.ctx, p.answers) in
      record p { server = record (p.server) { phase = phase }; ctx = ctx; answers = answers }

  unfoldable pub run : Program F Q → List (Action F) → Program F Q
  unfolding step
  run p [] = p
  run p (a ∷ rest) = run (step p a) rest
