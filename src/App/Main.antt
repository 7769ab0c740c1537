-- ===== src/App/Main.antt =====
-- The objects that main.cpp sets up, the tick handler of app/runtime_loop.cpp, and the program as
-- it takes requests and ticks one after another, each as a whole.
pub mod Caches
pub mod Limits
pub mod Calls
use mathlib.Core.Option
use frog_quant.Prelude.{
  ℕ, ◌+◌, ◌%◌, ◌^◌, max, Bool, true, false, Option, List, [], ◌∷◌, ◌++◌, Text, bytes, show_nat,
  if◌then◌else◌, foldl,
}
use frog_quant.Double.{Double, DoubleText}
use frog_quant.Logger.{LogQueue, Logger}
use frog_quant.Core.Orders.{RiskConfig, MarketTick}
use frog_quant.Core.Trading.{new_trading_core, on_tick}
use frog_quant.Grid.{StrategyOrderIntent, new_strategy, on_price_tick}
use frog_quant.App.Config.{AppConfig}
use frog_quant.App.Files.{Disk}
use frog_quant.App.RuntimeState.{load_runtime_state}
use frog_quant.App.Context.{ControlApiContext, Clock, push_event}
use frog_quant.Execution.{ExecConfig}
use frog_quant.App.Bootstrap.{BootstrapResult}
use frog_quant.App.Router.{handle}

-- A request of a client, or a tick of the market.
pub data Input (F : Type 0) : Type 0 where
  request : Clock → (method target body : Text) → Input F
  tick : Clock → MarketTick F → Input F

module _ {F Q : Type 0} where
  unfoldable pub push_intents :
      List (StrategyOrderIntent F) → ControlApiContext F Q → ControlApiContext F Q
  unfolding push_event show_nat
  push_intents [] ctx = ctx
  push_intents (it ∷ rest) ctx =
      push_intents rest (push_event (bytes "strategy_intent grid_id=" ++ show_nat it.grid_id) ctx)

module _ {F Q : Type 0} ⦃d : Double F⦄ ⦃q : LogQueue F Q⦄ where
  -- The state that the tick leaves in the counters and the core.
  unfoldable pub note_tick : Clock → MarketTick F → ControlApiContext F Q → ControlApiContext F Q
  unfolding on_tick
  note_tick clock m ctx = record ctx {
    tick_count = (ctx.tick_count + 1) % 2 ^ 64;
    last_tick_ms = clock.first;
    core = on_tick clock.second ctx.core m;
  }

  unfoldable pub on_market_tick :
      Clock → MarketTick F → ControlApiContext F Q → ControlApiContext F Q
  unfolding note_tick on_price_tick push_intents
  on_market_tick clock m ctx =
      let noted = note_tick clock m ctx in
      let (grid, intents) = on_price_tick ctx.grid m.price in
      if ctx.strategy_enabled then push_intents intents (record noted { grid = grid }) else noted

module _ {F Q : Type 0} ⦃d : Double F⦄ ⦃t : DoubleText F⦄ ⦃q : LogQueue F Q⦄ where
  -- The state before the servers start.
  unfoldable pub initial_context :
      BootstrapResult F → (start_ms : ℕ) → Disk → Logger Q → ControlApiContext F Q
  unfolding load_runtime_state new_trading_core new_strategy
  initial_context bs start_ms disk logger =
      let ((enabled, risk_cfg), _) =
        load_runtime_state disk bs.cfg.runtime_state_path
          (bs.cfg.strategy_start_enabled, bs.risk_cfg) in
      record {
        cfg = bs.cfg;
        exec_cfg = bs.exec_cfg;
        start_ms = start_ms;
        tick_count = 0;
        last_tick_ms = 0;
        strategy_enabled = enabled;
        grid = new_strategy bs.cfg.grid_default;
        core = new_trading_core risk_cfg logger;
        risk_cfg = risk_cfg;
        sent = [];
        events = [];
        orders = [];
        max_orders = max 100 bs.cfg.max_orders_cache;
        order_trim_batch = max 1 bs.cfg.order_trim_batch;
        max_events = max 1 bs.cfg.max_events_cache;
        disk = disk;
      }

  unfoldable pub after : Input F → ControlApiContext F Q → ControlApiContext F Q
  unfolding handle on_market_tick
  after (request clock method target body) ctx = (handle clock method target body ctx).0
  after (tick clock m) ctx = on_market_tick clock m ctx

  unfoldable pub run : List (Input F) → ControlApiContext F Q → ControlApiContext F Q
  unfolding after
  run [] ctx = ctx
  run (i ∷ is) ctx = run is (after i ctx)
