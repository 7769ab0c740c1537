-- ===== src/Core/Trading/Exposure.antt =====
-- The position limit over a whole history.
use frog_quant.Prelude.{◌≡◌, refl, ◌⊎◌, inl, inr, true, false, List, [], ◌∷◌, arith, All, ℕ}
use frog_quant.Double.{Double, nought, HasSigns}
use frog_quant.Logger.{LogQueue, Logger}
use frog_quant.Core.Orders.{OrderRequest, RiskConfig}
use frog_quant.Core.Trading.{
  TradingCore, new_trading_core, on_tick, submit_manual_order, cancel_order, ref_price_of,
  risk_config,
}
use frog_quant.Core.Trading.History.{Event, ticks, submits, cancels, configures, handle, run}

module _ {F : Type 0} ⦃d : Double F⦄ where
  -- Prices of ticks and quantities of orders are positive, and the limits are left alone.
  abbrev pub IsRegular : Event F → Type 0
  IsRegular (ticks now tick) = d.lt nought tick.price ≡ true
  IsRegular (submits created now req) = d.lt nought req.qty ≡ true
  IsRegular (cancels now id) = Unit {0}
  IsRegular (configures cfg) = ⊥

module _ {F Q : Type 0} ⦃d : Double F⦄ ⦃q : LogQueue F Q⦄ where
  -- The largest position that the limits allow.
  abbrev pub allowed : TradingCore F Q → F
  allowed c = d.mul c.account.equity_usd (risk_config c).max_position_ratio

  pub record IsLimited (limit : F) (c : TradingCore F Q) : Type 0 where
    pub same : allowed c ≡ limit
    pub price : (d.le c.last_price nought ≡ true) ⊎ (d.lt nought c.last_price ≡ true)
    pub position : d.lt limit c.account.position_notional_usd ≡ false

  submit-IsLimited :
      (signs : HasSigns F) (limit : F) (created now : ℕ) (c : TradingCore F Q)
      (req : OrderRequest F)
      → d.lt nought req.qty ≡ true
      → IsLimited limit c
      → IsLimited limit (submit_manual_order created now c req).0
  unfolding submit_manual_order risk_config
  submit-IsLimited signs limit created now c req h inv =
      ground (arith, signs.fabs-mul req.qty (ref_price_of req c.last_price))

  handle-IsLimited :
      (signs : HasSigns F) (limit : F) (c : TradingCore F Q) (e : Event F)
      → IsRegular e
      → IsLimited limit c
      → IsLimited limit (handle c e)
  unfolding handle on_tick cancel_order risk_config
  handle-IsLimited signs limit c (ticks now tick) h inv = record {
    same = inv.same;
    price = inr h;
    position = inv.position;
  }
  handle-IsLimited signs limit c (submits created now req) h inv =
      submit-IsLimited signs limit created now c req h inv
  handle-IsLimited signs limit c (cancels now id) h inv = record {
    same = inv.same;
    price = inv.price;
    position = inv.position;
  }
  handle-IsLimited signs limit c (configures cfg) h inv = absurd h

  run-IsLimited :
      (signs : HasSigns F) (limit : F) (c : TradingCore F Q) (history : List (Event F))
      → All IsRegular history
      → IsLimited limit c
      → IsLimited limit (run c history)
  unfolding run
  run-IsLimited signs limit c [] h inv = inv
  run-IsLimited signs limit c (e ∷ rest) (h, hs) inv =
      run-IsLimited signs limit (handle c e) rest hs (handle-IsLimited signs limit c e h inv)

  -- From a new core, through any history in which ticks have positive prices, orders have positive
  -- quantities and the limits stay, the position never exceeds the product of equity and the
  -- largest ratio, if it does not exceed it at zero, and if products of positive numbers have no
  -- sign.
  pub run-position_limited :
      (signs : HasSigns F) (cfg : RiskConfig F) (logger : Logger Q) (history : List (Event F))
      → d.lt (allowed (new_trading_core cfg logger)) nought ≡ false
      → d.le nought nought ≡ true
      → All IsRegular history
      → let c = run (new_trading_core cfg logger) history in
        d.lt (allowed c) c.account.position_notional_usd ≡ false
  unfolding new_trading_core
  run-position_limited signs cfg logger history room zero regular =
      let inv =
        run-IsLimited signs (allowed (new_trading_core cfg logger)) (new_trading_core cfg logger)
          history regular (record { same = refl; price = inl zero; position = room }) in
      rw (inv.same) inv.position
