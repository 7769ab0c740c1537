-- ===== src/Core/FlatConfig/Keys.antt =====
-- The settings of core/app_config.hpp: their keys in the file, their values, and how a value is read.
use frog_quant.Prelude.{
  ℤ, Bool, Option, none, some, List, [], ◌∷◌, ◌++◌, Text, bytes, map, text_eq, not, ◌&&◌, ◌||◌,
  if◌then◌else◌, ℕ,
}
use frog_quant.Double.{DoubleText}
use frog_quant.Strings.{lower_char}
use frog_quant.Strings.Numbers.{stoi}
use frog_quant.Core.FlatConfig.{
  AppConfig, Key, key_value_line, symbol_key, exchange_base_url_key, dry_run_key,
  control_bind_ip_key, control_port_key, risk_max_single_order_notional_usd_key,
  risk_max_position_ratio_key, risk_daily_loss_stop_ratio_key, grid_levels_key, grid_order_qty_key,
  grid_take_profit_ratio_key, grid_dynamic_enabled_key, grid_recenter_threshold_ratio_key,
  grid_band_ratio_key, health_unhealthy_after_no_tick_sec_key, max_events_cache_key,
  max_orders_cache_key, order_trim_batch_key, run_seconds_key,
}

-- The key of a setting in the file.
abbrev pub name : Key → Text
name symbol_key = bytes "symbol"
name exchange_base_url_key = bytes "exchange.base_url"
name dry_run_key = bytes "execution.dry_run"
name control_bind_ip_key = bytes "control.bind_ip"
name control_port_key = bytes "control.port"
name risk_max_single_order_notional_usd_key = bytes "risk.max_single_order_notional_usd"
name risk_max_position_ratio_key = bytes "risk.max_position_ratio"
name risk_daily_loss_stop_ratio_key = bytes "risk.daily_loss_stop_ratio"
name grid_levels_key = bytes "grid.levels"
name grid_order_qty_key = bytes "grid.order_qty"
name grid_take_profit_ratio_key = bytes "grid.take_profit_ratio"
name grid_dynamic_enabled_key = bytes "grid.dynamic_enabled"
name grid_recenter_threshold_ratio_key = bytes "grid.recenter_threshold_ratio"
name grid_band_ratio_key = bytes "grid.band_ratio"
name health_unhealthy_after_no_tick_sec_key = bytes "health.unhealthy_after_no_tick_sec"
name max_events_cache_key = bytes "service.max_events_cache"
name max_orders_cache_key = bytes "service.max_orders_cache"
name order_trim_batch_key = bytes "service.order_trim_batch"
name run_seconds_key = bytes "runtime.run_seconds"

abbrev pub index : Key → ℕ
index symbol_key = 0
index exchange_base_url_key = 1
index dry_run_key = 2
index control_bind_ip_key = 3
index control_port_key = 4
index risk_max_single_order_notional_usd_key = 5
index risk_max_position_ratio_key = 6
index risk_daily_loss_stop_ratio_key = 7
index grid_levels_key = 8
index grid_order_qty_key = 9
index grid_take_profit_ratio_key = 10
index grid_dynamic_enabled_key = 11
index grid_recenter_threshold_ratio_key = 12
index grid_band_ratio_key = 13
index health_unhealthy_after_no_tick_sec_key = 14
index max_events_cache_key = 15
index max_orders_cache_key = 16
index order_trim_batch_key = 17
index run_seconds_key = 18

-- The value of a line under the key of a setting, and those of all lines, from the first line on.
unfoldable pub line_values : Key → Option (Text × Text) → List Text
unfolding text_eq
line_values k none = []
line_values k (some (key, val)) = if text_eq key (name k) then val ∷ [] else []

unfoldable pub values : Key → List Text → List Text
unfolding key_value_line line_values
values k [] = []
values k (line ∷ lines) = line_values k (key_value_line line) ++ values k lines

module _ (F : Type 0) where
  abbrev pub Value : Key → Type 0
  Value symbol_key = Text
  Value exchange_base_url_key = Text
  Value dry_run_key = Bool
  Value control_bind_ip_key = Text
  Value control_port_key = ℤ
  Value risk_max_single_order_notional_usd_key = F
  Value risk_max_position_ratio_key = F
  Value risk_daily_loss_stop_ratio_key = F
  Value grid_levels_key = ℤ
  Value grid_order_qty_key = F
  Value grid_take_profit_ratio_key = F
  Value grid_dynamic_enabled_key = Bool
  Value grid_recenter_threshold_ratio_key = F
  Value grid_band_ratio_key = F
  Value health_unhealthy_after_no_tick_sec_key = ℤ
  Value max_events_cache_key = ℤ
  Value max_orders_cache_key = ℤ
  Value order_trim_batch_key = ℤ
  Value run_seconds_key = ℤ

module _ {F : Type 0} where
  abbrev pub field : (k : Key) → AppConfig F → Value F k
  field symbol_key cfg = cfg.symbol
  field exchange_base_url_key cfg = cfg.exchange_base_url
  field dry_run_key cfg = cfg.dry_run
  field control_bind_ip_key cfg = cfg.control_bind_ip
  field control_port_key cfg = cfg.control_port
  field risk_max_single_order_notional_usd_key cfg = cfg.risk_max_single_order_notional_usd
  field risk_max_position_ratio_key cfg = cfg.risk_max_position_ratio
  field risk_daily_loss_stop_ratio_key cfg = cfg.risk_daily_loss_stop_ratio
  field grid_levels_key cfg = cfg.grid_levels
  field grid_order_qty_key cfg = cfg.grid_order_qty
  field grid_take_profit_ratio_key cfg = cfg.grid_take_profit_ratio
  field grid_dynamic_enabled_key cfg = cfg.grid_dynamic_enabled
  field grid_recenter_threshold_ratio_key cfg = cfg.grid_recenter_threshold_ratio
  field grid_band_ratio_key cfg = cfg.grid_band_ratio
  field health_unhealthy_after_no_tick_sec_key cfg = cfg.health_unhealthy_after_no_tick_sec
  field max_events_cache_key cfg = cfg.max_events_cache
  field max_orders_cache_key cfg = cfg.max_orders_cache
  field order_trim_batch_key cfg = cfg.order_trim_batch
  field run_seconds_key cfg = cfg.run_seconds

-- The words for the two values of a flag, in capital or small letters.
unfoldable pub flag : Bool → Text → Bool
unfolding text_eq
flag old val =
    let word = map lower_char val in
    let yes =
      text_eq word (bytes "true") || (text_eq word (bytes "1") || text_eq word (bytes "yes")) in
    let no =
      text_eq word (bytes "false") || (text_eq word (bytes "0") || text_eq word (bytes "no")) in
    yes || (not no && old)

-- The whole number that a text begins with.
unfoldable pub number : ℤ → Text → ℤ
unfolding stoi
number old val = elim (stoi val) [ none ↦ old | some n ↦ n ]

module _ (F : Type 0) ⦃t : DoubleText F⦄ where
  -- A text in place of an old value: the old value stays if the text cannot be read.
  unfoldable pub read : (k : Key) → Value F k → Text → Value F k
  unfolding flag number
  read symbol_key old val = val
  read exchange_base_url_key old val = val
  read dry_run_key old val = flag old val
  read control_bind_ip_key old val = val
  read control_port_key old val = number old val
  read risk_max_single_order_notional_usd_key old val = elim (t.stod val) [
    | none ↦ old
    | some x ↦ x
  ]
  read risk_max_position_ratio_key old val = elim (t.stod val) [ none ↦ old | some x ↦ x ]
  read risk_daily_loss_stop_ratio_key old val = elim (t.stod val) [ none ↦ old | some x ↦ x ]
  read grid_levels_key old val = number old val
  read grid_order_qty_key old val = elim (t.stod val) [ none ↦ old | some x ↦ x ]
  read grid_take_profit_ratio_key old val = elim (t.stod val) [ none ↦ old | some x ↦ x ]
  read grid_dynamic_enabled_key old val = flag old val
  read grid_recenter_threshold_ratio_key old val = elim (t.stod val) [ none ↦ old | some x ↦ x ]
  read grid_band_ratio_key old val = elim (t.stod val) [ none ↦ old | some x ↦ x ]
  read health_unhealthy_after_no_tick_sec_key old val = number old val
  read max_events_cache_key old val = number old val
  read max_orders_cache_key old val = number old val
  read order_trim_batch_key old val = number old val
  read run_seconds_key old val = number old val
