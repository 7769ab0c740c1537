-- ===== src/App/Program/Ticks.antt =====
-- The four turns of the tick handler against the handler as a whole.
use frog_quant.Prelude.{◌≡◌, refl}
use frog_quant.Double.{Double}
use frog_quant.Logger.{LogQueue}
use frog_quant.Core.Orders.{MarketTick}
use frog_quant.App.Context.{ControlApiContext, Clock}
use frog_quant.App.Main.{on_market_tick, note_tick}
use frog_quant.App.Program.{counting, stamping, pricing, planning, handled}

module _ {F Q : Type 0} ⦃d : Double F⦄ ⦃q : LogQueue F Q⦄ where
  -- The four turns one after another, with no other thread between them, are the tick handler.
  pub handled-on_market_tick :
      (clock : Clock) (m : MarketTick F) (ctx : ControlApiContext F Q)
      → handled
          (planning clock m)
          (handled (pricing clock m) (handled (stamping clock m) (handled (counting clock m) ctx)))
        ≡ on_market_tick clock m ctx
  unfolding handled on_market_tick note_tick
  handled-on_market_tick clock m ctx = refl
