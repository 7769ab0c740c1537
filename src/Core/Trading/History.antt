-- ===== src/Core/Trading/History.antt =====
-- Everything that can happen to a `TradingCore` after it is made, one call after another.
use frog_quant.Prelude.{ℕ, suc, List, [], ◌∷◌}
use frog_quant.Double.{Double}
use frog_quant.Logger.{LogQueue}
use frog_quant.Core.Orders.{OrderRequest, RiskConfig, MarketTick}
use frog_quant.Core.Trading.{
  TradingCore, on_tick, submit_manual_order, cancel_order, update_risk_config,
}

-- The public methods that change the state, with the readings of the clock that each makes.
pub data Event (F : Type 0) : Type 0 where
  ticks : ℕ → MarketTick F → Event F
  submits : ℕ → ℕ → OrderRequest F → Event F
  cancels : ℕ → ℕ → Event F
  configures : RiskConfig F → Event F

-- How many orders a history submits.
abbrev pub orders_in : {F : Type 0} → List (Event F) → ℕ
orders_in [] = 0
orders_in (submits _ _ _ ∷ rest) = suc (orders_in rest)
orders_in (_ ∷ rest) = orders_in rest

module _ {F Q : Type 0} ⦃d : Double F⦄ ⦃q : LogQueue F Q⦄ where
  unfoldable pub handle : TradingCore F Q → Event F → TradingCore F Q
  handle c (ticks now tick) = on_tick now c tick
  handle c (submits created now req) = (submit_manual_order created now c req).0
  handle c (cancels now id) = (cancel_order now c id).0
  handle c (configures cfg) = update_risk_config c cfg

  unfoldable pub run : TradingCore F Q → List (Event F) → TradingCore F Q
  run c [] = c
  run c (e ∷ rest) = run (handle c e) rest
