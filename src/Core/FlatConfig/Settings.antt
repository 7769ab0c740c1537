-- ===== src/Core/FlatConfig/Settings.antt =====
-- Which lines of the file decide a setting.
use frog_quant.Prelude.{
  ◌≡◌, refl, ◌∙◌, ap, true, false, Option, inl, inr, none, some, List, [], ◌∷◌, Text, foldl, ◌==◌,
  text_eq, text_eq_sound, subst, ==_self, arith, Bool-cases, sym,
}
use frog_quant.Double.{Double, DoubleText}
use frog_quant.Core.FlatConfig.{
  AppConfig, Key, default_config, key_value_line, key_of, set, to_bool, to_int, to_double,
  load_line, load_app_config, symbol_key, exchange_base_url_key, dry_run_key, control_bind_ip_key,
  control_port_key, risk_max_single_order_notional_usd_key, risk_max_position_ratio_key,
  risk_daily_loss_stop_ratio_key, grid_levels_key, grid_order_qty_key, grid_take_profit_ratio_key,
  grid_dynamic_enabled_key, grid_recenter_threshold_ratio_key, grid_band_ratio_key,
  health_unhealthy_after_no_tick_sec_key, max_events_cache_key, max_orders_cache_key,
  order_trim_batch_key, run_seconds_key,
}
use mathlib.Core.List.{foldl-append}
use frog_quant.Core.FlatConfig.Keys.{name, index, flag, number, line_values, values, field, read}

-- The table of keys is the program's.
key_of-name : (k : Key) → key_of (name k) ≡ some k
unfolding key_of
key_of-name symbol_key = refl
key_of-name exchange_base_url_key = refl
key_of-name dry_run_key = refl
key_of-name control_bind_ip_key = refl
key_of-name control_port_key = refl
key_of-name risk_max_single_order_notional_usd_key = refl
key_of-name risk_max_position_ratio_key = refl
key_of-name risk_daily_loss_stop_ratio_key = refl
key_of-name grid_levels_key = refl
key_of-name grid_order_qty_key = refl
key_of-name grid_take_profit_ratio_key = refl
key_of-name grid_dynamic_enabled_key = refl
key_of-name grid_recenter_threshold_ratio_key = refl
key_of-name grid_band_ratio_key = refl
key_of-name health_unhealthy_after_no_tick_sec_key = refl
key_of-name max_events_cache_key = refl
key_of-name max_orders_cache_key = refl
key_of-name order_trim_batch_key = refl
key_of-name run_seconds_key = refl

-- A key takes the branch of a setting only if it is its name.
key_of_sound : (key : Text) (k : Key) → key_of key ≡ some k → text_eq key (name k) ≡ true
unfolding key_of
key_of_sound key symbol_key h = ground arith
key_of_sound key exchange_base_url_key h = ground arith
key_of_sound key dry_run_key h = ground arith
key_of_sound key control_bind_ip_key h = ground arith
key_of_sound key control_port_key h = ground arith
key_of_sound key risk_max_single_order_notional_usd_key h = ground arith
key_of_sound key risk_max_position_ratio_key h = ground arith
key_of_sound key risk_daily_loss_stop_ratio_key h = ground arith
key_of_sound key grid_levels_key h = ground arith
key_of_sound key grid_order_qty_key h = ground arith
key_of_sound key grid_take_profit_ratio_key h = ground arith
key_of_sound key grid_dynamic_enabled_key h = ground arith
key_of_sound key grid_recenter_threshold_ratio_key h = ground arith
key_of_sound key grid_band_ratio_key h = ground arith
key_of_sound key health_unhealthy_after_no_tick_sec_key h = ground arith
key_of_sound key max_events_cache_key h = ground arith
key_of_sound key max_orders_cache_key h = ground arith
key_of_sound key order_trim_batch_key h = ground arith
key_of_sound key run_seconds_key h = ground arith

index_of : (j k : Key) → (index j == index k) ≡ true → j ≡ k
index_of symbol_key k h = ground arith
index_of exchange_base_url_key k h = ground arith
index_of dry_run_key k h = ground arith
index_of control_bind_ip_key k h = ground arith
index_of control_port_key k h = ground arith
index_of risk_max_single_order_notional_usd_key k h = ground arith
index_of risk_max_position_ratio_key k h = ground arith
index_of risk_daily_loss_stop_ratio_key k h = ground arith
index_of grid_levels_key k h = ground arith
index_of grid_order_qty_key k h = ground arith
index_of grid_take_profit_ratio_key k h = ground arith
index_of grid_dynamic_enabled_key k h = ground arith
index_of grid_recenter_threshold_ratio_key k h = ground arith
index_of grid_band_ratio_key k h = ground arith
index_of health_unhealthy_after_no_tick_sec_key k h = ground arith
index_of max_events_cache_key k h = ground arith
index_of max_orders_cache_key k h = ground arith
index_of order_trim_batch_key k h = ground arith
index_of run_seconds_key k h = ground arith

module _ {F : Type 0} ⦃t : DoubleText F⦄ where
  -- The branch of a key sets its own setting, and no other.
  field-set :
      (k j : Key) (val : Text) (cfg : AppConfig F)
      → (index j == index k) ≡ true
      → field k (set j val cfg) ≡ read F k (field k cfg) val
  unfolding set read flag number to_bool to_int to_double
  field-set symbol_key j val cfg h = ground arith
  field-set exchange_base_url_key j val cfg h = ground arith
  field-set dry_run_key j val cfg h = ground arith
  field-set control_bind_ip_key j val cfg h = ground arith
  field-set control_port_key j val cfg h = ground arith
  field-set risk_max_single_order_notional_usd_key j val cfg h = ground arith
  field-set risk_max_position_ratio_key j val cfg h = ground arith
  field-set risk_daily_loss_stop_ratio_key j val cfg h = ground arith
  field-set grid_levels_key j val cfg h = ground arith
  field-set grid_order_qty_key j val cfg h = ground arith
  field-set grid_take_profit_ratio_key j val cfg h = ground arith
  field-set grid_dynamic_enabled_key j val cfg h = ground arith
  field-set grid_recenter_threshold_ratio_key j val cfg h = ground arith
  field-set grid_band_ratio_key j val cfg h = ground arith
  field-set health_unhealthy_after_no_tick_sec_key j val cfg h = ground arith
  field-set max_events_cache_key j val cfg h = ground arith
  field-set max_orders_cache_key j val cfg h = ground arith
  field-set order_trim_batch_key j val cfg h = ground arith
  field-set run_seconds_key j val cfg h = ground arith

  field-set_other :
      (k j : Key) (val : Text) (cfg : AppConfig F)
      → (index j == index k) ≡ false
      → field k (set j val cfg) ≡ field k cfg
  unfolding set
  field-set_other symbol_key j val cfg h = ground arith
  field-set_other exchange_base_url_key j val cfg h = ground arith
  field-set_other dry_run_key j val cfg h = ground arith
  field-set_other control_bind_ip_key j val cfg h = ground arith
  field-set_other control_port_key j val cfg h = ground arith
  field-set_other risk_max_single_order_notional_usd_key j val cfg h = ground arith
  field-set_other risk_max_position_ratio_key j val cfg h = ground arith
  field-set_other risk_daily_loss_stop_ratio_key j val cfg h = ground arith
  field-set_other grid_levels_key j val cfg h = ground arith
  field-set_other grid_order_qty_key j val cfg h = ground arith
  field-set_other grid_take_profit_ratio_key j val cfg h = ground arith
  field-set_other grid_dynamic_enabled_key j val cfg h = ground arith
  field-set_other grid_recenter_threshold_ratio_key j val cfg h = ground arith
  field-set_other grid_band_ratio_key j val cfg h = ground arith
  field-set_other health_unhealthy_after_no_tick_sec_key j val cfg h = ground arith
  field-set_other max_events_cache_key j val cfg h = ground arith
  field-set_other max_orders_cache_key j val cfg h = ground arith
  field-set_other order_trim_batch_key j val cfg h = ground arith
  field-set_other run_seconds_key j val cfg h = ground arith

  -- What one line does to a setting.
  field-named :
      (k : Key) (key val : Text) (cfg : AppConfig F)
      → text_eq key (name k) ≡ true
      → field k (elim (key_of key) [ none ↦ cfg | some j ↦ set j val cfg ])
        ≡ read F k (field k cfg) val
  field-named k key val cfg e =
      rw (text_eq_sound key (name k) e, key_of-name k) (field-set k k val cfg (==_self (index k)))

  field-unnamed :
      (k : Key) (branch : Option Key) (key val : Text) (cfg : AppConfig F)
      → key_of key ≡ branch
      → text_eq key (name k) ≡ false
      → field k (elim branch [ none ↦ cfg | some j ↦ set j val cfg ]) ≡ field k cfg
  field-unnamed k none key val cfg b e = refl
  field-unnamed k (some j) key val cfg b e = elim (Bool-cases (index j == index k)) [
    | inl same ↦
        let named : text_eq key (name k) ≡ true =
          subst (λ i. text_eq key (name i) ≡ true) (index_of j k same) (key_of_sound key j b) in
        absurd (cc)
    | inr other ↦ field-set_other k j val cfg other
  ]

  field-line :
      (k : Key) (kv : Option (Text × Text)) (cfg : AppConfig F)
      → field k (elim kv [
        | none ↦ cfg
        | some (key, val) ↦ elim (key_of key) [ none ↦ cfg | some j ↦ set j val cfg ]
      ])
        ≡ foldl (read F k) (field k cfg) (line_values k kv)
  unfolding line_values
  field-line k none cfg = refl
  field-line k (some (key, val)) cfg = elim (Bool-cases (text_eq key (name k))) [
    | inl e ↦ field-named k key val cfg e ∙ sym (rw e refl)
    | inr e ↦ field-unnamed k (key_of key) key val cfg refl e ∙ sym (rw e refl)
  ]

  foldl-load_line :
      (k : Key) (lines : List Text) (cfg : AppConfig F)
      → field k (foldl load_line cfg lines) ≡ foldl (read F k) (field k cfg) (values k lines)
  unfolding load_line values
  foldl-load_line k [] cfg = refl
  foldl-load_line k (line ∷ lines) cfg =
      foldl-load_line k lines (load_line cfg line)
      ∙ ap (λ x. foldl (read F k) x (values k lines)) (field-line k (key_value_line line) cfg)
      ∙ sym (
          foldl-append (read F k) (field k cfg) (line_values k (key_value_line line))
            (values k lines))

module _ (F : Type 0) ⦃d : Double F⦄ ⦃t : DoubleText F⦄ where
  -- Each of the 19 settings starts from its default and is decided by the lines under its own name
  -- alone: their values are read one after another, as a text, a whole number, a number or a word
  -- for yes or no, and one that cannot be read leaves the setting as it is. The key and the value
  -- of a line are those that `key_value_line` splits it into.
  pub field-load_app_config :
      (k : Key) (lines : List Text)
      → field k (load_app_config {F = F} (some lines))
        ≡ foldl (read F k) (field k (load_app_config {F = F} none)) (values k lines)
  unfolding load_app_config
  field-load_app_config k lines = foldl-load_line k lines default_config
