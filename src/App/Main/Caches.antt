-- ===== src/App/Main/Caches.antt =====
-- The caches of events and orders in every run of the program.
use frog_quant.Prelude.{ℕ, ◌≤◌, max, List, [], ◌∷◌, ◌++◌, bytes, show_nat, arith, length}
use frog_quant.Double.{Double, DoubleText}
use frog_quant.Logger.{LogQueue, Logger}
use frog_quant.Core.Orders.{MarketTick}
use frog_quant.Grid.{StrategyOrderIntent, on_price_tick}
use frog_quant.App.Files.{Disk}
use frog_quant.App.Context.{ControlApiContext, Clock, push_event}
use frog_quant.App.Router.{handle}
use frog_quant.App.Router.Bounds.{IsBounded, push_event-IsBounded, handle-IsBounded}
use frog_quant.App.Bootstrap.{BootstrapResult}
use frog_quant.App.Main.{
  Input, request, tick, push_intents, note_tick, on_market_tick, initial_context, after, run,
}

module _ {F Q : Type 0} {j k : ℕ} where
  push_intents-IsBounded :
      (its : List (StrategyOrderIntent F)) (ctx : ControlApiContext F Q)
      → IsBounded j k ctx
      → IsBounded j k (push_intents its ctx)
  unfolding push_intents
  push_intents-IsBounded [] ctx h = h
  push_intents-IsBounded (it ∷ rest) ctx h =
      let e = bytes "strategy_intent grid_id=" ++ show_nat it.grid_id in
      push_intents-IsBounded rest (push_event e ctx) (push_event-IsBounded e ctx h)

module _ {F Q : Type 0} ⦃d : Double F⦄ ⦃t : DoubleText F⦄ ⦃q : LogQueue F Q⦄ {j k : ℕ} where
  on_market_tick-IsBounded :
      (clock : Clock) (m : MarketTick F) (ctx : ControlApiContext F Q)
      → IsBounded j k ctx
      → IsBounded j k (on_market_tick clock m ctx)
  unfolding on_market_tick note_tick
  on_market_tick-IsBounded clock m ctx h =
      let r = on_price_tick ctx.grid m.price in
      ground (
        arith,
        push_intents-IsBounded r.1 (record (note_tick clock m ctx) { grid = r.0 })
            (record {
              events = h.events;
              orders = h.orders;
              room = h.room;
              batch = h.batch;
              events_bound = h.events_bound;
              orders_bound = h.orders_bound;
            }),
        h.events,
        h.orders,
        h.room,
        h.batch,
        h.events_bound,
        h.orders_bound,
      )

  run-IsBounded :
      (is : List (Input F)) (ctx : ControlApiContext F Q)
      → IsBounded j k ctx
      → IsBounded j k (run is ctx)
  unfolding run after
  run-IsBounded [] ctx h = h
  run-IsBounded (request clock method target body ∷ is) ctx h =
      run-IsBounded is (handle clock method target body ctx).0
        (handle-IsBounded clock method target body ctx h)
  run-IsBounded (tick clock m ∷ is) ctx h =
      run-IsBounded is (on_market_tick clock m ctx) (on_market_tick-IsBounded clock m ctx h)

module _ {F Q : Type 0} ⦃d : Double F⦄ ⦃t : DoubleText F⦄ ⦃q : LogQueue F Q⦄ where
  initial_context-IsBounded :
      (bs : BootstrapResult F) (start_ms : ℕ) (disk : Disk) (logger : Logger Q)
      → IsBounded
          (max 1 bs.cfg.max_events_cache)
          (max 100 bs.cfg.max_orders_cache)
          (initial_context bs start_ms disk logger)
  unfolding initial_context
  initial_context-IsBounded bs start_ms disk logger = record {
    events = omega arith;
    orders = omega arith;
    room = omega arith;
    batch = omega arith;
    events_bound = omega arith;
    orders_bound = omega arith;
  }

  -- After any sequence of requests and ticks from the start of the program, whatever the
  -- configuration is, there are no more events than the greater of 1 and the configured number, and
  -- no more orders than the greater of 100 and the configured number.
  pub run-caches_bounded :
      (bs : BootstrapResult F) (start_ms : ℕ) (disk : Disk) (logger : Logger Q)
      (is : List (Input F))
      → (length (run is (initial_context bs start_ms disk logger)).events
          ≤ max 1 bs.cfg.max_events_cache)
        × (length (run is (initial_context bs start_ms disk logger)).orders
            ≤ max 100 bs.cfg.max_orders_cache)
  run-caches_bounded bs start_ms disk logger is =
      let h =
        run-IsBounded is (initial_context bs start_ms disk logger)
          (initial_context-IsBounded bs start_ms disk logger) in
      (omega (arith, h.events, h.events_bound), omega (arith, h.orders, h.orders_bound))
