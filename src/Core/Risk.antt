-- ===== src/Core/Risk.antt =====
-- core/risk_engine.{hpp,cpp}: `RiskEngine`, which holds a configuration and checks an order.
pub mod Limits
use frog_quant.Prelude.{Bool, true, false, if◌then◌else◌}
use frog_quant.Double.{Double, nought}
use frog_quant.Core.Orders.{
  OrderRecord, AccountSnapshot, RiskConfig, RejectReason, no_reason, max_single_order_notional,
  max_position_ratio, daily_loss_stop,
}

pub record RiskEngine (F : Type 0) : Type 0 where
  pub cfg : RiskConfig F

unfoldable pub new_risk_engine : {F : Type 0} → RiskConfig F → RiskEngine F
new_risk_engine cfg = record { cfg = cfg }

unfoldable pub set_config : {F : Type 0} → RiskEngine F → RiskConfig F → RiskEngine F
set_config e cfg = record e { cfg = cfg }

unfoldable pub config : {F : Type 0} → RiskEngine F → RiskConfig F
config e = e.cfg

module _ {F : Type 0} ⦃d : Double F⦄ where
  -- A loss of the whole equity, or more, where there is none.
  unfoldable pub day_loss_ratio : AccountSnapshot F → F
  day_loss_ratio account =
      if d.lt nought account.equity_usd
      then d.div account.day_loss_usd account.equity_usd
      else d.lit 1 0

  unfoldable pub check_pre_trade : RiskEngine F → OrderRecord F → AccountSnapshot F → RejectReason
  unfolding day_loss_ratio
  check_pre_trade e order account =
      let notional = d.fabs (d.mul order.qty order.ref_price) in
      let max_position_allowed = d.mul account.equity_usd e.cfg.max_position_ratio in
      if d.lt e.cfg.max_single_order_notional_usd notional
      then max_single_order_notional
      else if d.lt max_position_allowed (d.add account.position_notional_usd notional)
      then max_position_ratio
      else if d.le e.cfg.daily_loss_stop_ratio (day_loss_ratio account)
      then daily_loss_stop
      else no_reason
