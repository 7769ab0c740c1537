-- ===== src/App/Config.antt =====
-- `AppConfig` of app/app_support.hpp, and its loading from the lines of a file in app/app_support.cpp.
use frog_quant.Prelude.{
  ℕ, suc, ◌-◌, ℤ, pos, Bool, true, false, ◌&&◌, ◌||◌, Option, none, some, List, [], ◌∷◌, ◌++◌, Text,
  bytes, if◌then◌else◌, ◌==◌, text_eq, take, drop, length, get_or_else, not, foldl,
}
use Prim.Native.String.{String}
use mathlib.Core.List.{reverse}
use frog_quant.Double.{Double, DoubleText}
use frog_quant.Strings.{starts_with, find_char, before, drop_while, is_empty, is_space}
use frog_quant.Strings.Numbers.{stoi, stoull}
use frog_quant.Grid.{LongGridConfig}

pub record AppConfig (F : Type 0) : Type 0 where
  pub symbol : Text
  pub market_poll_ms : ℤ
  pub control_port : ℤ
  pub risk_max_single_order_notional_usd : F
  pub risk_max_position_ratio : F
  pub risk_daily_loss_stop_ratio : F
  pub exec_dry_run : Bool
  pub exec_base_url : Text
  pub log_path : Text
  pub credentials_path : Text
  pub health_unhealthy_after_no_tick_sec : ℤ
  pub run_seconds : ℤ
  pub strategy_start_enabled : Bool
  pub runtime_state_path : Text
  pub max_events_cache : ℕ
  pub max_orders_cache : ℕ
  pub order_trim_batch : ℕ
  pub grid_default : LongGridConfig F

-- The initial values of the members.
unfoldable pub default_grid_config : {F : Type 0} ⦃d : Double F⦄ → LongGridConfig F
default_grid_config ⦃d⦄ = record {
  levels = pos 8;
  order_qty = d.lit 1 3;
  take_profit_ratio = d.lit 2 3;
  dynamic_enabled = true;
  recenter_threshold_ratio = d.lit 4 3;
  band_ratio = d.lit 6 2;
}

unfoldable pub default_config : {F : Type 0} ⦃d : Double F⦄ → AppConfig F
unfolding default_grid_config
default_config ⦃d⦄ = record {
  symbol = bytes "BTCUSDT";
  market_poll_ms = pos 1000;
  control_port = pos 8080;
  risk_max_single_order_notional_usd = d.lit 10 0;
  risk_max_position_ratio = d.lit 80 2;
  risk_daily_loss_stop_ratio = d.lit 5 2;
  exec_dry_run = true;
  exec_base_url = bytes "https://testnet.binancefuture.com";
  log_path = bytes "market_logs.jsonl";
  credentials_path = bytes "config/credentials.env";
  health_unhealthy_after_no_tick_sec = pos 15;
  run_seconds = pos 0;
  strategy_start_enabled = true;
  runtime_state_path = bytes "config/runtime_state.json";
  max_events_cache = 200;
  max_orders_cache = 5000;
  order_trim_batch = 1000;
  grid_default = default_grid_config;
}

unfoldable pub trim : Text → Text
unfolding drop_while
trim s = reverse (drop_while is_space (reverse (drop_while is_space s)))

-- The map: the value that was stored last under a key stands first.
abbrev pub Entries : Type 0
Entries = List (Text × Text)

unfoldable pub lookup : Text → Entries → Option Text
unfolding text_eq
lookup k [] = none
lookup k ((j, v) ∷ kv) = if text_eq j k then some v else lookup k kv

abbrev is_quote : ℕ → Bool
is_quote c = c == b'"' || c == b'\''

-- A value that opens with a quote loses its first and its last character.
unfoldable pub unquote : Text → Text
unquote [] = []
unquote (c ∷ s) = if is_quote c then take (length s - 1) s else c ∷ s

abbrev is_comment : Text → Bool
is_comment [] = false
is_comment (c ∷ s) = c == b'#'

-- The part in front of the first colon and the part behind it, trimmed.
unfoldable pub split_pair : Text → Option (Text × Text)
unfolding before find_char trim
split_pair t = elim (before (λ c. c == b':') t) [
  | none ↦ none
  | some key ↦ some (trim key, trim (drop (suc (length key)) t))
]

-- What one pair does to the section and the entries: a key with no value opens a section.
add_pair : Text → Text × Entries → Text × Text → Text × Entries
unfolding starts_with unquote
add_pair line (section, kv) (key, val) =
    let full =
      if not (is_empty section) && starts_with (bytes "  ") line
      then section ++ b'.' ∷ key
      else key in
    if is_empty val then (key, kv) else (section, (full, unquote val) ∷ kv)

-- One round of the loop over the lines.
unfoldable pub yaml_line : Text × Entries → Text → Text × Entries
unfolding add_pair split_pair trim
yaml_line state line =
    let t = trim line in
    if is_empty t || is_comment t
    then state
    else elim (split_pair t) [ none ↦ state | some pair ↦ add_pair line state pair ]

unfoldable pub parse_simple_yaml : List Text → Entries
unfolding yaml_line
parse_simple_yaml ls = (foldl yaml_line ([], []) ls).1

-- `v == "1" || v == "true" || …`
unfoldable pub is_yes : Text → Bool
unfolding text_eq
is_yes v =
    text_eq v (bytes "1")
    || text_eq v (bytes "true")
    || text_eq v (bytes "TRUE")
    || text_eq v (bytes "yes")
    || text_eq v (bytes "YES")

-- `get_s`, `get_i`, `get_sz`, `get_d` and `get_b`: the value under a key, if there is one and it
-- can be read, else the old value.
abbrev read_or {ℓ} : {A : Type ℓ} → (Text → Option A) → Option Text → A → A
read_or read none old = old
read_or read (some v) old = get_or_else (read v) old

module _ {F : Type 0} ⦃t : DoubleText F⦄ where
  unfoldable pub load_entries : AppConfig F → Entries → AppConfig F
  unfolding lookup is_yes stoi stoull
  load_entries cfg kv = record {
    symbol = str "engine.symbol" cfg.symbol;
    market_poll_ms = int "engine.market_poll_ms" cfg.market_poll_ms;
    control_port = int "engine.control_port" cfg.control_port;
    risk_max_single_order_notional_usd =
        dbl "risk.max_single_order_notional_usd" cfg.risk_max_single_order_notional_usd;
    risk_max_position_ratio = dbl "risk.max_position_ratio" cfg.risk_max_position_ratio;
    risk_daily_loss_stop_ratio = dbl "risk.daily_loss_stop_ratio" cfg.risk_daily_loss_stop_ratio;
    exec_dry_run = yes? "execution.dry_run" cfg.exec_dry_run;
    exec_base_url = str "execution.base_url" cfg.exec_base_url;
    log_path = str "logging.path" cfg.log_path;
    credentials_path = str "execution.credentials_path" cfg.credentials_path;
    health_unhealthy_after_no_tick_sec =
        int "runtime.health_unhealthy_after_no_tick_sec" cfg.health_unhealthy_after_no_tick_sec;
    run_seconds = int "runtime.run_seconds" cfg.run_seconds;
    strategy_start_enabled = yes? "runtime.strategy_start_enabled" cfg.strategy_start_enabled;
    runtime_state_path = str "runtime.state_path" cfg.runtime_state_path;
    max_events_cache = size "runtime.max_events_cache" cfg.max_events_cache;
    max_orders_cache = size "runtime.max_orders_cache" cfg.max_orders_cache;
    order_trim_batch = size "runtime.order_trim_batch" cfg.order_trim_batch;
    grid_default = record {
      levels = int "strategy.levels" cfg.grid_default.levels;
      order_qty = dbl "strategy.order_qty" cfg.grid_default.order_qty;
      take_profit_ratio = dbl "strategy.take_profit_ratio" cfg.grid_default.take_profit_ratio;
      dynamic_enabled = yes? "strategy.dynamic_enabled" cfg.grid_default.dynamic_enabled;
      recenter_threshold_ratio =
          dbl "strategy.recenter_threshold_ratio" cfg.grid_default.recenter_threshold_ratio;
      band_ratio = dbl "strategy.band_ratio" cfg.grid_default.band_ratio;
    };
  }
    where
      str : String → Text → Text
      str k old = read_or some (lookup (bytes k) kv) old

      int : String → ℤ → ℤ
      int k old = read_or stoi (lookup (bytes k) kv) old

      size : String → ℕ → ℕ
      size k old = read_or stoull (lookup (bytes k) kv) old

      dbl : String → F → F
      dbl k old = read_or t.stod (lookup (bytes k) kv) old

      yes? : String → Bool → Bool
      yes? k old = read_or (λ v. some (is_yes v)) (lookup (bytes k) kv) old

  -- The lines are those of the file, and none if it cannot be opened. With no entries the
  -- configuration is left alone, as it is with entries under unknown keys.
  unfoldable pub load_config : AppConfig F → List Text → AppConfig F
  unfolding parse_simple_yaml load_entries
  load_config cfg ls = load_entries cfg (parse_simple_yaml ls)
