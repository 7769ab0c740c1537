-- ===== src/Client/Strategy.antt =====
-- qt_client/src/pages/strategy_page.cpp: the buttons of `StrategyPage` and its timer. The texts of the
-- form are given by the numbers that Qt reads in them.
use frog_quant.App.Config.{default_grid_config}
use frog_quant.Prelude.{
  ◌≡◌, refl, true, ℕ, ◌%◌, ◌+◌, ℤ, pos, Bool, ◌&&◌, not, List, [], ◌∷◌, bytes, if◌then◌else◌, leb_ℤ,
  ◌==◌,
}
use frog_quant.Double.{Double, nought}
use frog_quant.Client.{
  Call, Click, Object, warned, if_confirmed, number, get_runtime, get_risk_config, post_grid_config,
  post_grid_enable, post_risk_config,
}

pub record GridForm (F : Type 0) : Type 0 where
  pub levels : ℤ
  pub order_qty : F
  pub take_profit : F
  pub recenter : F
  pub band : F

pub record RiskForm (F : Type 0) : Type 0 where
  pub notional : F
  pub position_ratio : F
  pub loss_ratio : F

module _ {F : Type 0} ⦃d : Double F⦄ where
  -- `0 < x && x <= high`
  abbrev pub is_within : F → F → Bool
  is_within x high = d.lt nought x && d.le x high

  unfoldable pub is_valid_form : GridForm F → Bool
  is_valid_form f =
      (leb_ℤ (pos 2) f.levels && leb_ℤ f.levels (pos 200))
      && (is_within f.order_qty (d.lit 1000 0)
          && (is_within f.take_profit (d.lit 2 1)
              && (is_within f.recenter (d.lit 2 1)
                  && (d.lt (d.lit 2 3) f.band && d.le f.band (d.lit 1 0)))))

  unfoldable pub grid_object : GridForm F → Object F
  grid_object f =
      (bytes "band_ratio", number f.band)
      ∷ (bytes "levels", number (d.of_int f.levels))
      ∷ (bytes "order_qty", number f.order_qty)
      ∷ (bytes "recenter_threshold_ratio", number f.recenter)
      ∷ (bytes "take_profit_ratio", number f.take_profit)
      ∷ []

  -- The button that applies the form; `confirmed` is the answer to the question.
  unfoldable pub apply_clicked : (confirmed : Bool) → GridForm F → Click F
  unfolding is_valid_form grid_object post_grid_config
  apply_clicked confirmed f =
      if not (is_valid_form f)
      then warned
      else if_confirmed confirmed (post_grid_config (grid_object f))

module _ {F : Type 0} where
  unfoldable pub enable_clicked : (confirmed checked : Bool) → Click F
  unfolding post_grid_enable
  enable_clicked confirmed checked = if_confirmed confirmed (post_grid_enable checked)

  -- The limits go out as they are.
  unfoldable pub risk_object : RiskForm F → Object F
  risk_object f =
      (bytes "daily_loss_stop_ratio", number f.loss_ratio)
      ∷ (bytes "max_position_ratio", number f.position_ratio)
      ∷ (bytes "max_single_order_notional_usd", number f.notional)
      ∷ []

  unfoldable pub risk_apply_clicked : RiskForm F → Call F
  unfolding risk_object post_risk_config
  risk_apply_clicked f = post_risk_config (risk_object f)

  -- The timer's calls, and its counter.
  unfoldable pub on_timer : ℕ → List (Call F) × ℕ
  unfolding get_runtime get_risk_config
  on_timer n = let k = n + 1 in (get_runtime ∷ (if k % 5 == 0 then get_risk_config ∷ [] else []), k)

module _ {F : Type 0} ⦃d : Double F⦄ where
  -- The button that resets the texts: both forms, and the switch.
  unfoldable pub reset_clicked : GridForm F × Bool × RiskForm F
  reset_clicked = (
    record {
      levels = pos 8;
      order_qty = d.lit 1 3;
      take_profit = d.lit 2 3;
      recenter = d.lit 4 3;
      band = d.lit 6 2;
    },
    true,
    record { notional = d.lit 10 0; position_ratio = d.lit 8 1; loss_ratio = d.lit 5 2 },
  )

module _ (F : Type 0) ⦃d : Double F⦄ where
  -- The form for the grid is reset to the server's defaults.
  reset_clicked-default :
      let f = (reset_clicked {F = F}).0 in
      let g = default_grid_config {F = F} in
      (f.levels ≡ g.levels)
      × (f.order_qty ≡ g.order_qty)
      × (f.take_profit ≡ g.take_profit_ratio)
      × (f.recenter ≡ g.recenter_threshold_ratio)
      × (f.band ≡ g.band_ratio)
  unfolding reset_clicked default_grid_config
  reset_clicked-default = (refl, refl, refl, refl, refl)
