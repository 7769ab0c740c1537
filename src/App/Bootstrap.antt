-- ===== src/App/Bootstrap.antt =====
-- The start-up of app/bootstrap.cpp: the configuration file, the environment and the checks.
pub mod Precedence
use frog_quant.Prelude.{
  ℤ, Bool, true, false, not, ◌&&◌, ◌||◌, Option, none, some, List, [], ◌∷◌, ◌++◌, Text, bytes,
  if◌then◌else◌, get_or_else,
}
use frog_quant.Double.{Double, DoubleText}
use frog_quant.Core.Orders.{RiskConfig}
use frog_quant.Strings.{is_empty, lines_of}
use frog_quant.Strings.Numbers.{stoi}
use frog_quant.App.Config.{AppConfig, default_config, load_config, is_yes}
use frog_quant.App.Files.{Disk, path_writable_probe, read_credentials_file}
use frog_quant.Execution.{ExecConfig}

-- `std::getenv`
abbrev pub Environment : Type 0
Environment = Text → Option Text

unfoldable pub env_or_empty : Environment → Text → Text
env_or_empty env key = get_or_else (env key) []

unfoldable pub env_is_true : Environment → Text → Bool → Bool
unfolding is_yes
env_is_true env key default_value = elim (env key) [ none ↦ default_value | some v ↦ is_yes v ]

unfoldable pub env_or_int : Environment → Text → ℤ → ℤ
unfolding stoi
env_or_int env key default_value = elim (env key) [
  | none ↦ default_value
  | some v ↦ get_or_else (stoi v) default_value
]

-- What the bootstrap hands to main.
pub record BootstrapResult (F : Type 0) : Type 0 where
  pub cfg : AppConfig F
  pub risk_cfg : RiskConfig F
  pub exec_cfg : ExecConfig

-- `false` with a message, or `true` with the result.
pub data Bootstrapped (F : Type 0) : Type 0 where
  failed : Text → Bootstrapped F
  ready : BootstrapResult F → Bootstrapped F

-- The first key that is set, if the second stands in for it.
abbrev pub or_else : Text → Text → Text
or_else a b = if is_empty a then b else a

unfoldable pub config_path : Environment → Text
unfolding env_or_empty
config_path env = or_else (env_or_empty env (bytes "FQ_CONFIG_PATH")) (bytes "config/engine.yaml")

-- The lines of a file, and none if it cannot be read.
unfoldable pub file_lines : Disk → Text → List Text
unfolding lines_of
file_lines disk path = elim (disk.content path) [ none ↦ [] | some text ↦ lines_of text ]

-- The keys of the environment, and those of the credentials file where they are missing.
unfoldable pub resolved_keys : Disk → Text → Text → Text → Text × Text
unfolding read_credentials_file
resolved_keys disk path api_key secret_key =
    let ((k, s), found) = read_credentials_file disk path ([], []) in
    if (is_empty api_key || is_empty secret_key) && found
    then (or_else api_key k, or_else secret_key s)
    else (api_key, secret_key)

module _ {F : Type 0} where
  unfoldable pub with_environment : Environment → AppConfig F → AppConfig F
  unfolding env_or_empty env_is_true env_or_int
  with_environment env cfg = record cfg {
    log_path = or_else (env_or_empty env (bytes "FQ_LOG_PATH")) cfg.log_path;
    exec_dry_run = env_is_true env (bytes "FQ_EXEC_DRY_RUN") cfg.exec_dry_run;
    run_seconds = env_or_int env (bytes "FQ_RUN_SECONDS") cfg.run_seconds;
    health_unhealthy_after_no_tick_sec =
        env_or_int env (bytes "FQ_HEALTH_UNHEALTHY_AFTER_NO_TICK_SEC")
          cfg.health_unhealthy_after_no_tick_sec;
  }

  unfoldable pub configured : AppConfig F → Text × Text → BootstrapResult F
  configured cfg (api_key, secret_key) = record {
    cfg = cfg;
    risk_cfg = record {
      max_single_order_notional_usd = cfg.risk_max_single_order_notional_usd;
      max_position_ratio = cfg.risk_max_position_ratio;
      daily_loss_stop_ratio = cfg.risk_daily_loss_stop_ratio;
    };
    exec_cfg = record {
      api_key = api_key;
      secret_key = secret_key;
      base_url = cfg.exec_base_url;
      dry_run = cfg.exec_dry_run;
    };
  }

  -- The checks, on the configuration after the environment.
  unfoldable pub checked : Environment → Disk → AppConfig F → Bootstrapped F
  unfolding path_writable_probe resolved_keys env_or_empty configured
  checked env disk cfg =
      let (api_key, secret_key) =
        resolved_keys disk cfg.credentials_path (env_or_empty env (bytes "BINANCE_TESTNET_API_KEY"))
          (env_or_empty env (bytes "BINANCE_TESTNET_SECRET_KEY")) in
      if not (path_writable_probe disk cfg.log_path)
      then failed (bytes "log path not writable: " ++ cfg.log_path)
      else if not cfg.exec_dry_run && (is_empty api_key || is_empty secret_key)
      then failed (bytes "FQ_EXEC_DRY_RUN=false but API credentials are missing")
      else ready (configured cfg (api_key, secret_key))

module _ {F : Type 0} ⦃d : Double F⦄ ⦃t : DoubleText F⦄ where
  unfoldable pub bootstrap : Environment → Disk → Bootstrapped F
  unfolding default_config load_config file_lines config_path with_environment checked
  bootstrap env disk =
      checked env disk
        (with_environment env (load_config default_config (file_lines disk (config_path env))))
