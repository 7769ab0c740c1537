-- ===== src/Core/FlatConfig.antt =====
-- core/app_config.{hpp,cpp}: the loader of `key: value` lines. Messages on the console are left out.
pub mod Keys
pub mod Settings
use frog_quant.Prelude.{
  ℕ, suc, ℤ, pos, Bool, true, false, ◌||◌, Option, none, some, List, [], ◌∷◌, Text, bytes, map,
  foldl, if◌then◌else◌, ◌==◌, text_eq, drop, length, get_or_else,
}
use mathlib.Core.List.{reverse}
use frog_quant.Double.{Double, DoubleText}
use frog_quant.Strings.{before, drop_while, is_empty, is_space, lower_char}
use frog_quant.Strings.Numbers.{stoi}

pub record AppConfig (F : Type 0) : Type 0 where
  pub symbol : Text
  pub exchange_base_url : Text
  pub dry_run : Bool
  pub control_bind_ip : Text
  pub control_port : ℤ
  pub risk_max_single_order_notional_usd : F
  pub risk_max_position_ratio : F
  pub risk_daily_loss_stop_ratio : F
  pub grid_levels : ℤ
  pub grid_order_qty : F
  pub grid_take_profit_ratio : F
  pub grid_dynamic_enabled : Bool
  pub grid_recenter_threshold_ratio : F
  pub grid_band_ratio : F
  pub health_unhealthy_after_no_tick_sec : ℤ
  pub max_events_cache : ℤ
  pub max_orders_cache : ℤ
  pub order_trim_batch : ℤ
  pub run_seconds : ℤ

-- The initial values of the members.
unfoldable pub default_config : {F : Type 0} ⦃d : Double F⦄ → AppConfig F
default_config ⦃d⦄ = record {
  symbol = bytes "BTCUSDT";
  exchange_base_url = bytes "https://testnet.binancefuture.com";
  dry_run = true;
  control_bind_ip = bytes "127.0.0.1";
  control_port = pos 8080;
  risk_max_single_order_notional_usd = d.lit 10 0;
  risk_max_position_ratio = d.lit 80 2;
  risk_daily_loss_stop_ratio = d.lit 5 2;
  grid_levels = pos 8;
  grid_order_qty = d.lit 1 3;
  grid_take_profit_ratio = d.lit 2 3;
  grid_dynamic_enabled = true;
  grid_recenter_threshold_ratio = d.lit 4 3;
  grid_band_ratio = d.lit 6 2;
  health_unhealthy_after_no_tick_sec = pos 15;
  max_events_cache = pos 200;
  max_orders_cache = pos 5000;
  order_trim_batch = pos 1000;
  run_seconds = pos 0;
}

unfoldable pub trim : Text → Text
unfolding drop_while
trim s = reverse (drop_while is_space (reverse (drop_while is_space s)))

unfoldable pub to_bool : Text → Bool → Bool
unfolding text_eq
to_bool v def =
    let s = map lower_char v in
    if text_eq s (bytes "true") || (text_eq s (bytes "1") || text_eq s (bytes "yes"))
    then true
    else if text_eq s (bytes "false") || (text_eq s (bytes "0") || text_eq s (bytes "no"))
    then false
    else def

unfoldable pub to_int : Text → ℤ → ℤ
unfolding stoi
to_int v def = get_or_else (stoi v) def

module _ {F : Type 0} ⦃t : DoubleText F⦄ where
  unfoldable pub to_double : Text → F → F
  to_double v def = get_or_else (t.stod v) def

abbrev is_quote : ℕ → Bool
is_quote c = c == b'"' || c == b'\''

abbrev is_comment : Text → Bool
is_comment [] = false
is_comment (c ∷ s) = c == b'#'

-- A quote at the front, and one at the back.
unfoldable pub unquote : Text → Text
unquote [] = []
unquote (c ∷ s) = unquote_back (if is_quote c then s else c ∷ s)
  where
    unquote_front : Text → Text
    unquote_front [] = []
    unquote_front (b ∷ r) = if is_quote b then r else b ∷ r

    unquote_back : Text → Text
    unquote_back r = reverse (unquote_front (reverse r))

-- The key and the value of a line, if it has them.
unfoldable pub key_value_line : Text → Option (Text × Text)
unfolding trim before unquote
key_value_line line =
    let x = trim line in
    if is_empty x || is_comment x then none else elim (before (λ c. c == b':') x) [
      | none ↦ none
      | some key ↦ some (trim key, unquote (trim (drop (suc (length key)) x)))
    ]

-- The settings, one for each branch on the key.
pub data Key : Type 0 where
  symbol_key exchange_base_url_key dry_run_key control_bind_ip_key control_port_key
        risk_max_single_order_notional_usd_key risk_max_position_ratio_key
        risk_daily_loss_stop_ratio_key grid_levels_key grid_order_qty_key grid_take_profit_ratio_key
        grid_dynamic_enabled_key grid_recenter_threshold_ratio_key grid_band_ratio_key
        health_unhealthy_after_no_tick_sec_key max_events_cache_key max_orders_cache_key
        order_trim_batch_key run_seconds_key :
      Key

-- The branch that a key takes; an unknown one takes none.
unfoldable pub key_of : Text → Option Key
unfolding text_eq
key_of key =
    if text_eq key (bytes "symbol")
    then some symbol_key
    else if text_eq key (bytes "exchange.base_url")
    then some exchange_base_url_key
    else if text_eq key (bytes "execution.dry_run")
    then some dry_run_key
    else if text_eq key (bytes "control.bind_ip")
    then some control_bind_ip_key
    else if text_eq key (bytes "control.port")
    then some control_port_key
    else if text_eq key (bytes "risk.max_single_order_notional_usd")
    then some risk_max_single_order_notional_usd_key
    else if text_eq key (bytes "risk.max_position_ratio")
    then some risk_max_position_ratio_key
    else if text_eq key (bytes "risk.daily_loss_stop_ratio")
    then some risk_daily_loss_stop_ratio_key
    else if text_eq key (bytes "grid.levels")
    then some grid_levels_key
    else if text_eq key (bytes "grid.order_qty")
    then some grid_order_qty_key
    else if text_eq key (bytes "grid.take_profit_ratio")
    then some grid_take_profit_ratio_key
    else if text_eq key (bytes "grid.dynamic_enabled")
    then some grid_dynamic_enabled_key
    else if text_eq key (bytes "grid.recenter_threshold_ratio")
    then some grid_recenter_threshold_ratio_key
    else if text_eq key (bytes "grid.band_ratio")
    then some grid_band_ratio_key
    else if text_eq key (bytes "health.unhealthy_after_no_tick_sec")
    then some health_unhealthy_after_no_tick_sec_key
    else if text_eq key (bytes "service.max_events_cache")
    then some max_events_cache_key
    else if text_eq key (bytes "service.max_orders_cache")
    then some max_orders_cache_key
    else if text_eq key (bytes "service.order_trim_batch")
    then some order_trim_batch_key
    else if text_eq key (bytes "runtime.run_seconds")
    then some run_seconds_key
    else none

module _ {F : Type 0} ⦃t : DoubleText F⦄ where
  -- What the branch does.
  unfoldable pub set : Key → Text → AppConfig F → AppConfig F
  unfolding to_bool to_int to_double
  set symbol_key val cfg = record cfg { symbol = val }
  set exchange_base_url_key val cfg = record cfg { exchange_base_url = val }
  set dry_run_key val cfg = record cfg { dry_run = to_bool val cfg.dry_run }
  set control_bind_ip_key val cfg = record cfg { control_bind_ip = val }
  set control_port_key val cfg = record cfg { control_port = to_int val cfg.control_port }
  set risk_max_single_order_notional_usd_key val cfg = record cfg {
    risk_max_single_order_notional_usd = to_double val cfg.risk_max_single_order_notional_usd;
  }
  set risk_max_position_ratio_key val cfg = record cfg {
    risk_max_position_ratio = to_double val cfg.risk_max_position_ratio;
  }
  set risk_daily_loss_stop_ratio_key val cfg = record cfg {
    risk_daily_loss_stop_ratio = to_double val cfg.risk_daily_loss_stop_ratio;
  }
  set grid_levels_key val cfg = record cfg { grid_levels = to_int val cfg.grid_levels }
  set grid_order_qty_key val cfg = record cfg { grid_order_qty = to_double val cfg.grid_order_qty }
  set grid_take_profit_ratio_key val cfg = record cfg {
    grid_take_profit_ratio = to_double val cfg.grid_take_profit_ratio;
  }
  set grid_dynamic_enabled_key val cfg = record cfg {
    grid_dynamic_enabled = to_bool val cfg.grid_dynamic_enabled;
  }
  set grid_recenter_threshold_ratio_key val cfg = record cfg {
    grid_recenter_threshold_ratio = to_double val cfg.grid_recenter_threshold_ratio;
  }
  set grid_band_ratio_key val cfg = record cfg {
    grid_band_ratio = to_double val cfg.grid_band_ratio;
  }
  set health_unhealthy_after_no_tick_sec_key val cfg = record cfg {
    health_unhealthy_after_no_tick_sec = to_int val cfg.health_unhealthy_after_no_tick_sec;
  }
  set max_events_cache_key val cfg = record cfg {
    max_events_cache = to_int val cfg.max_events_cache;
  }
  set max_orders_cache_key val cfg = record cfg {
    max_orders_cache = to_int val cfg.max_orders_cache;
  }
  set order_trim_batch_key val cfg = record cfg {
    order_trim_batch = to_int val cfg.order_trim_batch;
  }
  set run_seconds_key val cfg = record cfg { run_seconds = to_int val cfg.run_seconds }

  -- One round of the loop.
  unfoldable pub load_line : AppConfig F → Text → AppConfig F
  unfolding key_value_line key_of set
  load_line cfg line = elim (key_value_line line) [
    | none ↦ cfg
    | some (key, val) ↦ elim (key_of key) [ none ↦ cfg | some k ↦ set k val cfg ]
  ]

module _ {F : Type 0} ⦃d : Double F⦄ ⦃t : DoubleText F⦄ where
  -- `none` stands for a file that cannot be opened.
  unfoldable pub load_app_config : Option (List Text) → AppConfig F
  unfolding default_config load_line
  load_app_config none = default_config
  load_app_config (some lines) = foldl load_line default_config lines
