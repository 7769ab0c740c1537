-- ===== src/App/Bootstrap/Precedence.antt =====
-- What a start-up that succeeds has checked, and where its settings come from.
use frog_quant.Prelude.{
  ◌≡◌, refl, ap, ◌∙◌, Bool, sym, ℤ, Option, none, some, Option-cases, inl, inr, get_or_else,
  text_eq, true, false, not, ◌&&◌, ◌||◌, [], ◌∷◌, Text, bytes, arith, if◌then◌else◌,
}
use frog_quant.Double.{Double, DoubleText}
use frog_quant.Strings.{is_empty}
use frog_quant.Strings.Numbers.{stoi}
use frog_quant.App.Config.{AppConfig, default_config, load_config, is_yes}
use frog_quant.App.Files.{Disk, path_writable_probe, read_credentials_file}
use frog_quant.App.Bootstrap.{
  Environment, BootstrapResult, ready, env_or_empty, or_else, bootstrap, checked, with_environment,
  resolved_keys, configured, file_lines, config_path, env_is_true, env_or_int,
}

-- A setting of the file, and a text of the environment that goes before it: a text counts unless it
-- is empty, a flag is set by one of five words, and a number counts if it can be read.
abbrev pub set_text : Option Text → Text → Text
set_text none file = file
set_text (some []) file = file
set_text (some (c ∷ s)) file = c ∷ s

unfoldable pub set_flag : Option Text → Bool → Bool
unfolding text_eq
set_flag none file = file
set_flag (some s) file =
    text_eq s (bytes "1")
    || (text_eq s (bytes "true")
        || (text_eq s (bytes "TRUE") || (text_eq s (bytes "yes") || text_eq s (bytes "YES"))))

unfoldable pub set_number : Option Text → ℤ → ℤ
unfolding stoi
set_number none file = file
set_number (some s) file = elim (stoi s) [ none ↦ file | some n ↦ n ]

or_else_lem :
    (env : Environment) (key file : Text)
    → or_else (env_or_empty env key) file ≡ set_text (env key) file
unfolding env_or_empty
or_else_lem env key file = at (env key)
  where
    at : (o : Option Text) → or_else (get_or_else o []) file ≡ set_text o file
    at none = refl
    at (some []) = refl
    at (some (c ∷ s)) = refl

env_is_true_lem :
    (env : Environment) (key : Text) (file : Bool)
    → env_is_true env key file ≡ set_flag (env key) file
unfolding env_is_true set_flag is_yes
env_is_true_lem env key file = elim (Option-cases (env key)) [
  | inl e ↦ rw (e, env_is_true) refl
  | inr (s, e) ↦ rw (e, env_is_true) (ground arith)
]

env_or_int_lem :
    (env : Environment) (key : Text) (file : ℤ)
    → env_or_int env key file ≡ set_number (env key) file
unfolding env_or_int set_number
env_or_int_lem env key file = elim (Option-cases (env key)) [
  | inl e ↦ rw (e, env_or_int) refl
  | inr (s, e) ↦ rw (e, env_or_int) (ground arith)
]

module _ {F : Type 0} where
  checked_lem :
      (env : Environment) (disk : Disk) (cfg : AppConfig F) (bs : BootstrapResult F)
      → checked env disk cfg ≡ ready bs
      → (disk.is_writable cfg.log_path ≡ true)
        × ((bs.exec_cfg.dry_run
              || (not (is_empty bs.exec_cfg.api_key) && not (is_empty bs.exec_cfg.secret_key)))
            ≡ true)
        × (bs
            ≡ configured cfg (
                resolved_keys disk cfg.credentials_path
                  (env_or_empty env (bytes "BINANCE_TESTNET_API_KEY"))
                  (env_or_empty env (bytes "BINANCE_TESTNET_SECRET_KEY"))))
  unfolding checked configured path_writable_probe
  checked_lem env disk cfg bs h = (ground arith, ground arith, ground arith)

-- A file that cannot be read gives no keys.
unread :
    (disk : Disk) (path : Text)
    → let (keys, found) = read_credentials_file disk path ([], []) in
      found ≡ false → keys ≡ ([], [])
unfolding read_credentials_file
unread disk path h = ground arith

-- Where the keys come from: the file is read only if a key is missing.
filled :
    (api_key secret_key : Text) (keys : Text × Text) (found : Bool)
    → (found ≡ false → keys ≡ ([], []))
    → ◌≡◌ {A = Text × Text}
        (if (is_empty api_key || is_empty secret_key) && found
          then (or_else api_key keys.0, or_else secret_key keys.1)
          else (api_key, secret_key))
        (or_else api_key keys.0, or_else secret_key keys.1)
filled (a ∷ k) (b ∷ s) keys found h = refl
filled [] s keys true h = refl
filled (a ∷ k) [] keys true h = refl
filled [] [] keys false h = ground (arith, h refl)
filled [] (b ∷ s) keys false h = ground (arith, h refl)
filled (a ∷ k) [] keys false h = ground (arith, h refl)

resolved_keys_lem :
    (disk : Disk) (path api_key secret_key : Text)
    → resolved_keys disk path api_key secret_key ≡ (
      or_else api_key (read_credentials_file disk path ([], [])).0.0,
      or_else secret_key (read_credentials_file disk path ([], [])).0.1,
    )
unfolding resolved_keys
resolved_keys_lem disk path api_key secret_key =
    filled api_key secret_key (read_credentials_file disk path ([], [])).0
      (read_credentials_file disk path ([], [])).1 (unread disk path)

module _ {F : Type 0} ⦃d : Double F⦄ ⦃t : DoubleText F⦄ where
  -- The configuration of the file at `path`, or the defaults where it is silent or missing.
  abbrev pub file_config : Text → Disk → AppConfig F
  unfolding default_config file_lines
  file_config path disk = load_config default_config (file_lines disk path)

  -- The settings of the environment before those of a file.
  abbrev pub with_settings : Environment → AppConfig F → AppConfig F
  with_settings env file = record file {
    log_path = set_text (env (bytes "FQ_LOG_PATH")) file.log_path;
    exec_dry_run = set_flag (env (bytes "FQ_EXEC_DRY_RUN")) file.exec_dry_run;
    run_seconds = set_number (env (bytes "FQ_RUN_SECONDS")) file.run_seconds;
    health_unhealthy_after_no_tick_sec =
        set_number (env (bytes "FQ_HEALTH_UNHEALTHY_AFTER_NO_TICK_SEC"))
          file.health_unhealthy_after_no_tick_sec;
  }

  with_environment_lem :
      (env : Environment) (file : AppConfig F) → with_environment env file ≡ with_settings env file
  unfolding with_environment
  with_environment_lem env file = rw (or_else_lem env (bytes "FQ_LOG_PATH") file.log_path) (
      rw (env_is_true_lem env (bytes "FQ_EXEC_DRY_RUN") file.exec_dry_run) (
        rw (env_or_int_lem env (bytes "FQ_RUN_SECONDS") file.run_seconds) (
          rw
            (env_or_int_lem env (bytes "FQ_HEALTH_UNHEALTHY_AFTER_NO_TICK_SEC")
              file.health_unhealthy_after_no_tick_sec)
            refl)))

  file_config-path :
      (env : Environment) (disk : Disk)
      → file_config (config_path env) disk
        ≡ file_config (set_text (env (bytes "FQ_CONFIG_PATH")) (bytes "config/engine.yaml")) disk
  unfolding config_path
  file_config-path env disk =
      ap (λ path. file_config path disk)
        (or_else_lem env (bytes "FQ_CONFIG_PATH") (bytes "config/engine.yaml"))

  pub bootstrap_lem :
      (env : Environment) (disk : Disk) (bs : BootstrapResult F)
      → bootstrap env disk ≡ ready bs
      → let path = set_text (env (bytes "FQ_CONFIG_PATH")) (bytes "config/engine.yaml") in
        let file = file_config path disk in
        let file_keys = (read_credentials_file disk bs.cfg.credentials_path ([], [])).0 in
        (disk.is_writable bs.cfg.log_path ≡ true)
        × ((bs.exec_cfg.dry_run
              || (not (is_empty bs.exec_cfg.api_key) && not (is_empty bs.exec_cfg.secret_key)))
            ≡ true)
        × (bs.exec_cfg.api_key ≡ set_text (env (bytes "BINANCE_TESTNET_API_KEY")) file_keys.0)
        × (bs.exec_cfg.secret_key ≡ set_text (env (bytes "BINANCE_TESTNET_SECRET_KEY")) file_keys.1)
        × (bs.cfg ≡ record file {
          log_path = set_text (env (bytes "FQ_LOG_PATH")) file.log_path;
          exec_dry_run = set_flag (env (bytes "FQ_EXEC_DRY_RUN")) file.exec_dry_run;
          run_seconds = set_number (env (bytes "FQ_RUN_SECONDS")) file.run_seconds;
          health_unhealthy_after_no_tick_sec =
              set_number
                (env (bytes "FQ_HEALTH_UNHEALTHY_AFTER_NO_TICK_SEC"))
                file.health_unhealthy_after_no_tick_sec;
        })
        × (bs.exec_cfg.dry_run ≡ bs.cfg.exec_dry_run)
        × (bs.risk_cfg.max_position_ratio ≡ bs.cfg.risk_max_position_ratio)
        × (bs.risk_cfg.max_single_order_notional_usd ≡ bs.cfg.risk_max_single_order_notional_usd)
        × (bs.risk_cfg.daily_loss_stop_ratio ≡ bs.cfg.risk_daily_loss_stop_ratio)
  unfolding bootstrap configured
  bootstrap_lem env disk bs h =
      let key = env_or_empty env (bytes "BINANCE_TESTNET_API_KEY") in
      let secret = env_or_empty env (bytes "BINANCE_TESTNET_SECRET_KEY") in
      let file = file_config (config_path env) disk in
      let cfg = with_environment env file in
      let r = checked_lem env disk cfg bs h in
      let e : bs
          ≡ configured cfg (
            or_else key (read_credentials_file disk cfg.credentials_path ([], [])).0.0,
            or_else secret (read_credentials_file disk cfg.credentials_path ([], [])).0.1,
          ) =
        r.2 ∙ ap (configured cfg) (resolved_keys_lem disk cfg.credentials_path key secret) in
      let own : bs.cfg ≡ cfg = ap (λ b. b.cfg) e in
      (
        ground (arith, e, r.0),
        r.1,
        ap (λ b. b.exec_cfg.api_key) e
            ∙ ap (λ c. or_else key (read_credentials_file disk c.credentials_path ([], [])).0.0)
                (sym own)
            ∙ or_else_lem env (bytes "BINANCE_TESTNET_API_KEY") _,
        ap (λ b. b.exec_cfg.secret_key) e
            ∙ ap (λ c. or_else secret (read_credentials_file disk c.credentials_path ([], [])).0.1)
                (sym own)
            ∙ or_else_lem env (bytes "BINANCE_TESTNET_SECRET_KEY") _,
        own ∙ with_environment_lem env file ∙ ap (with_settings env) (file_config-path env disk),
        ground (arith, e),
        ground (arith, e),
        ground (arith, e),
        ground (arith, e),
      )
