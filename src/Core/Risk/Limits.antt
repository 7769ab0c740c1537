-- ===== src/Core/Risk/Limits.antt =====
-- What `RiskEngine::check_pre_trade` lets pass.
use frog_quant.Prelude.{◌≡◌, ◌≢◌, ◌↔◌, true, false, arith}
use frog_quant.Double.{Double, nought}
use frog_quant.Core.Orders.{OrderRecord, AccountSnapshot, RiskConfig, no_reason, price_unavailable}
use frog_quant.Core.Risk.{RiskEngine, day_loss_ratio, check_pre_trade}

module _ {F : Type 0} ⦃d : Double F⦄ where
  -- What the position would be with the order, a sale counted like a buy.
  abbrev notional_of : OrderRecord F → F
  notional_of order = d.fabs (d.mul order.qty order.ref_price)

  -- No limit is broken.
  pub record IsWithin (cfg : RiskConfig F) (order : OrderRecord F) (account : AccountSnapshot F)
      : Type 0 where
    pub order_size : d.lt cfg.max_single_order_notional_usd (notional_of order) ≡ false
    pub position :
        d.lt
          (d.mul account.equity_usd cfg.max_position_ratio)
          (d.add account.position_notional_usd (notional_of order))
        ≡ false
    pub day_loss : d.le cfg.daily_loss_stop_ratio (day_loss_ratio account) ≡ false

  -- An order passes exactly if it breaks none of the three limits, and the reason is never the one
  -- that is kept for orders without a price.
  pub check_pre_trade_iff :
      (e : RiskEngine F) (order : OrderRecord F) (account : AccountSnapshot F)
      → ((check_pre_trade e order account ≡ no_reason) ↔ IsWithin e.cfg order account)
        × (check_pre_trade e order account ≢ price_unavailable)
  unfolding check_pre_trade
  check_pre_trade_iff e order account = ((λ h. ground arith, λ w. ground arith), ground arith)

  -- Without equity no order passes, whatever its size, if the loss limit is at most one.
  pub check_pre_trade-no_equity :
      (e : RiskEngine F) (order : OrderRecord F) (account : AccountSnapshot F)
      → d.lt nought account.equity_usd ≡ false
      → d.le e.cfg.daily_loss_stop_ratio (d.lit 1 0) ≡ true
      → check_pre_trade e order account ≢ no_reason
  unfolding check_pre_trade
  check_pre_trade-no_equity e order account broke h = ground arith
