-- ===== src/App/Format.antt =====
-- The texts that app/app_support.cpp makes of enumerators, the configuration and the grid.
use frog_quant.Prelude.{
  ◌+◌, ℤ, pos, negsuc, Bool, true, false, List, [], ◌∷◌, ◌++◌, Text, bytes, show_nat,
}
use frog_quant.Double.{DoubleText}
use frog_quant.Core.Orders.{
  OrderStatus, RejectReason, new, accepted, rejected, cancelled, no_reason,
  max_single_order_notional, max_position_ratio, daily_loss_stop, price_unavailable,
}
use frog_quant.Grid.{
  GridLevelState, GridLevel, GridRuntimeView, LongGridConfig, idle, buy_placed, buy_filled,
  sell_placed,
}
use frog_quant.App.Config.{AppConfig}

abbrev pub show_bool : Bool → Text
show_bool true = bytes "true"
show_bool false = bytes "false"

unfoldable pub show_int : ℤ → Text
unfolding show_nat
show_int (pos n) = show_nat n
show_int (negsuc n) = b'-' ∷ show_nat (n + 1)

-- What is written to a stream piece by piece.
unfoldable pub joined : List Text → Text
joined [] = []
joined (s ∷ ss) = s ++ joined ss

-- The items with a comma between any two.
unfoldable pub comma_separated : List Text → Text
comma_separated [] = []
comma_separated (s ∷ []) = s
comma_separated (s ∷ t ∷ ss) = s ++ b',' ∷ comma_separated (t ∷ ss)

unfoldable pub status_to_str : OrderStatus → Text
status_to_str new = bytes "New"
status_to_str accepted = bytes "Accepted"
status_to_str rejected = bytes "Rejected"
status_to_str cancelled = bytes "Cancelled"

unfoldable pub reject_to_str : RejectReason → Text
reject_to_str no_reason = bytes "None"
reject_to_str max_single_order_notional = bytes "MaxSingleOrderNotional"
reject_to_str max_position_ratio = bytes "MaxPositionRatio"
reject_to_str daily_loss_stop = bytes "DailyLossStop"
reject_to_str price_unavailable = bytes "PriceUnavailable"

-- `static_cast<int>(state)`
abbrev pub state_code : GridLevelState → Text
state_code idle = bytes "0"
state_code buy_placed = bytes "1"
state_code buy_filled = bytes "2"
state_code sell_placed = bytes "3"

module _ {F : Type 0} ⦃t : DoubleText F⦄ where
  -- The fields of the grid's configuration, which both texts have.
  unfoldable pub grid_fields : LongGridConfig F → Text
  unfolding joined show_int
  grid_fields g = joined (
      bytes "\"levels\":"
      ∷ show_int g.levels
      ∷ bytes ",\"order_qty\":"
      ∷ t.show g.order_qty
      ∷ bytes ",\"take_profit_ratio\":"
      ∷ t.show g.take_profit_ratio
      ∷ bytes ",\"dynamic_enabled\":"
      ∷ show_bool g.dynamic_enabled
      ∷ bytes ",\"recenter_threshold_ratio\":"
      ∷ t.show g.recenter_threshold_ratio
      ∷ bytes ",\"band_ratio\":"
      ∷ t.show g.band_ratio
      ∷ [])

  unfoldable pub effective_config_json : AppConfig F → Text
  unfolding joined show_int show_nat grid_fields
  effective_config_json cfg = joined (
      bytes "{\"engine\":{\"symbol\":\""
      ∷ cfg.symbol
      ∷ bytes "\",\"market_poll_ms\":"
      ∷ show_int cfg.market_poll_ms
      ∷ bytes ",\"control_port\":"
      ∷ show_int cfg.control_port
      ∷ bytes "},\"risk\":{\"max_single_order_notional_usd\":"
      ∷ t.show cfg.risk_max_single_order_notional_usd
      ∷ bytes ",\"max_position_ratio\":"
      ∷ t.show cfg.risk_max_position_ratio
      ∷ bytes ",\"daily_loss_stop_ratio\":"
      ∷ t.show cfg.risk_daily_loss_stop_ratio
      ∷ bytes "},\"execution\":{\"dry_run\":"
      ∷ show_bool cfg.exec_dry_run
      ∷ bytes ",\"base_url\":\""
      ∷ cfg.exec_base_url
      ∷ bytes "\",\"credentials_path\":\""
      ∷ cfg.credentials_path
      ∷ bytes "\"},\"logging\":{\"path\":\""
      ∷ cfg.log_path
      ∷ bytes "\"},\"runtime\":{\"health_unhealthy_after_no_tick_sec\":"
      ∷ show_int cfg.health_unhealthy_after_no_tick_sec
      ∷ bytes ",\"run_seconds\":"
      ∷ show_int cfg.run_seconds
      ∷ bytes ",\"strategy_start_enabled\":"
      ∷ show_bool cfg.strategy_start_enabled
      ∷ bytes ",\"state_path\":\""
      ∷ cfg.runtime_state_path
      ∷ bytes "\",\"max_events_cache\":"
      ∷ show_nat cfg.max_events_cache
      ∷ bytes ",\"max_orders_cache\":"
      ∷ show_nat cfg.max_orders_cache
      ∷ bytes ",\"order_trim_batch\":"
      ∷ show_nat cfg.order_trim_batch
      ∷ bytes "},\"strategy\":{"
      ∷ grid_fields cfg.grid_default
      ∷ bytes "}}"
      ∷ [])

  unfoldable pub level_json : GridLevel F → Text
  unfolding joined show_nat
  level_json lv = joined (
      bytes "{\"id\":"
      ∷ show_nat lv.id
      ∷ bytes ",\"buy_price\":"
      ∷ t.show lv.buy_price
      ∷ bytes ",\"sell_price\":"
      ∷ t.show lv.sell_price
      ∷ bytes ",\"state\":"
      ∷ state_code lv.state
      ∷ bytes "}"
      ∷ [])

  unfoldable pub level_items : List (GridLevel F) → List Text
  unfolding level_json
  level_items [] = []
  level_items (lv ∷ rest) = level_json lv ∷ level_items rest

  unfoldable pub runtime_to_json : GridRuntimeView F → Bool → Text
  unfolding joined show_nat grid_fields level_items comma_separated
  runtime_to_json view enabled = joined (
      bytes "{\"api_version\":\"v1.2\",\"strategy_enabled\":"
      ∷ show_bool enabled
      ∷ bytes ",\"anchor_price\":"
      ∷ t.show view.anchor_price
      ∷ bytes ",\"rebuild_count\":"
      ∷ show_nat view.rebuild_count
      ∷ bytes ",\"config\":{"
      ∷ grid_fields view.config
      ∷ bytes "},\"levels\":["
      ∷ comma_separated (level_items view.levels)
      ∷ bytes "]}"
      ∷ [])
