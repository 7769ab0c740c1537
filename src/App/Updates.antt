-- ===== src/App/Updates.antt =====
-- The routes of app/control_api_router.cpp that change the grid's configuration and the limits.
use frog_quant.Prelude.{pos, Bool, ◌||◌, Text, bytes, if◌then◌else◌, ltb_ℤ, get_or_else}
use frog_quant.Double.{Double, DoubleText, nought}
use frog_quant.Core.Orders.{RiskConfig}
use frog_quant.Core.Trading.{update_risk_config}
use frog_quant.Grid.{LongGridConfig, update_config}
use frog_quant.App.Json.{json_get_number, json_get_int, json_get_bool}
use frog_quant.App.Context.{ControlApiContext, push_event}
use frog_quant.Control.{Response}
use frog_quant.App.Handlers.{bad_request, success, ok_text, saved}

module _ {F : Type 0} ⦃d : Double F⦄ ⦃t : DoubleText F⦄ where
  -- The grid's configuration with the fields that the body has.
  unfoldable pub patched_grid : Text → LongGridConfig F → LongGridConfig F
  unfolding json_get_int json_get_number json_get_bool
  patched_grid body g = record {
    levels = get_or_else (json_get_int d t body (bytes "levels")) g.levels;
    order_qty = get_or_else (json_get_number body (bytes "order_qty")) g.order_qty;
    take_profit_ratio =
        get_or_else (json_get_number body (bytes "take_profit_ratio")) g.take_profit_ratio;
    dynamic_enabled = get_or_else (json_get_bool body (bytes "dynamic_enabled")) g.dynamic_enabled;
    recenter_threshold_ratio =
        get_or_else (json_get_number body (bytes "recenter_threshold_ratio"))
          g.recenter_threshold_ratio;
    band_ratio = get_or_else (json_get_number body (bytes "band_ratio")) g.band_ratio;
  }

module _ {F : Type 0} ⦃t : DoubleText F⦄ where
  unfoldable pub patched_risk : Text → RiskConfig F → RiskConfig F
  unfolding json_get_number
  patched_risk body cfg = record {
    max_single_order_notional_usd =
        get_or_else (json_get_number body (bytes "max_single_order_notional_usd"))
          cfg.max_single_order_notional_usd;
    max_position_ratio =
        get_or_else (json_get_number body (bytes "max_position_ratio")) cfg.max_position_ratio;
    daily_loss_stop_ratio =
        get_or_else (json_get_number body (bytes "daily_loss_stop_ratio"))
          cfg.daily_loss_stop_ratio;
  }

module _ {F : Type 0} ⦃d : Double F⦄ where
  unfoldable pub is_out_of_range : RiskConfig F → Bool
  is_out_of_range next =
      d.le next.max_single_order_notional_usd nought
      || d.le next.max_position_ratio nought
      || d.lt (d.lit 1 0) next.max_position_ratio
      || d.le next.daily_loss_stop_ratio nought
      || d.lt (d.lit 1 0) next.daily_loss_stop_ratio

module _ {F Q : Type 0} ⦃d : Double F⦄ ⦃t : DoubleText F⦄ where
  unfoldable pub post_grid : Text → ControlApiContext F Q → ControlApiContext F Q × Response
  unfolding patched_grid update_config push_event bad_request success
  post_grid body ctx =
      let g = patched_grid body ctx.grid.cfg in
      if ltb_ℤ g.levels (pos 2) || ltb_ℤ (pos 200) g.levels
      then (
        ctx,
        bad_request (
            bytes
              "{\"ok\":false,\"code\":\"E_CFG_LEVELS_RANGE\",\"error\":\"levels must be in [2,200]\"}"),
      )
      else if d.le g.order_qty nought || d.lt (d.lit 1000 0) g.order_qty
      then (
        ctx,
        bad_request (
            bytes
              "{\"ok\":false,\"code\":\"E_CFG_QTY_RANGE\",\"error\":\"order_qty must be in (0,1000]\"}"),
      )
      else (
        push_event (bytes "grid_config_updated") (record ctx { grid = update_config ctx.grid g }),
        success ok_text,
      )

  unfoldable pub post_risk : Text → ControlApiContext F Q → ControlApiContext F Q × Response
  unfolding patched_risk is_out_of_range update_risk_config saved push_event bad_request success
  post_risk body ctx =
      let next = patched_risk body ctx.risk_cfg in
      if is_out_of_range next
      then (
        ctx,
        bad_request
            (bytes "{\"ok\":false,\"code\":\"E_RISK_RANGE\",\"error\":\"invalid risk ranges\"}"),
      )
      else (
        push_event (bytes "risk_config_updated")
            (saved (record ctx { risk_cfg = next; core = update_risk_config ctx.core next })),
        success ok_text,
      )
