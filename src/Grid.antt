-- ===== src/Grid.antt =====
-- strategy/long_grid_strategy.{hpp,cpp}: `LongGridStrategy`. A method gives the new strategy and
-- what it returns; the pointer to the candidate level is its index in the vector.
pub mod Levels
pub mod Choice
pub mod Fills
pub mod Validity
pub mod Prices
use frog_quant.Prelude.{
  ℕ, zero, suc, ◌+◌, ◌%◌, ◌^◌, ℤ, pos, pos_part, ◌-ℤ◌, ltb_ℤ, Bool, true, false, ◌&&◌, Option, none,
  some, List, [], ◌∷◌, if◌then◌else◌, ◌==◌,
}
use frog_quant.Double.{Double, nought}
use frog_quant.Core.Orders.{OrderSide, OrderType, buy, sell, limit}

pub record LongGridConfig (F : Type 0) : Type 0 where
  pub levels : ℤ
  pub order_qty : F
  pub take_profit_ratio : F
  pub dynamic_enabled : Bool
  pub recenter_threshold_ratio : F
  pub band_ratio : F

pub record StrategyOrderIntent (F : Type 0) : Type 0 where
  pub side : OrderSide
  pub type : OrderType
  pub qty : F
  pub price : F
  pub grid_id : ℕ

pub data GridLevelState : Type 0 where
  idle buy_placed buy_filled sell_placed : GridLevelState

pub record GridLevel (F : Type 0) : Type 0 where
  pub id : ℕ
  pub buy_price : F
  pub sell_price : F
  pub state : GridLevelState

pub record GridRuntimeView (F : Type 0) : Type 0 where
  pub config : LongGridConfig F
  pub anchor_price : F
  pub rebuild_count : ℕ
  pub levels : List (GridLevel F)

pub record LongGridStrategy (F : Type 0) : Type 0 where
  pub cfg : LongGridConfig F
  pub levels : List (GridLevel F)
  pub anchor_price : F
  pub rebuild_count : ℕ

abbrev pub is_idle : GridLevelState → Bool
is_idle idle = true
is_idle _ = false

-- `state == BuyPlaced || state == BuyFilled`
abbrev pub is_bought : GridLevelState → Bool
is_bought buy_placed = true
is_bought buy_filled = true
is_bought _ = false

module _ {F : Type 0} where
  -- `it->state = state` at the first level with the id, which `find_if` finds
  unfoldable pub find_level : ℕ → List (GridLevel F) → Option (GridLevel F)
  find_level grid_id [] = none
  find_level grid_id (lv ∷ rest) = if lv.id == grid_id then some lv else find_level grid_id rest

  unfoldable pub mark_level : ℕ → GridLevelState → List (GridLevel F) → List (GridLevel F)
  mark_level grid_id state [] = []
  mark_level grid_id state (lv ∷ rest) =
      if lv.id == grid_id
      then record lv { state = state } ∷ rest
      else lv ∷ mark_level grid_id state rest

  -- `levels_[i].state = state`
  unfoldable pub mark_at : ℕ → GridLevelState → List (GridLevel F) → List (GridLevel F)
  mark_at i state [] = []
  mark_at zero state (lv ∷ rest) = record lv { state = state } ∷ rest
  mark_at (suc i) state (lv ∷ rest) = lv ∷ mark_at i state rest

  unfoldable pub runtime_view : LongGridStrategy F → GridRuntimeView F
  runtime_view s = record {
    config = s.cfg;
    anchor_price = s.anchor_price;
    rebuild_count = s.rebuild_count;
    levels = s.levels;
  }

  unfoldable pub on_sell_filled : LongGridStrategy F → ℕ → LongGridStrategy F
  unfolding find_level mark_level
  on_sell_filled s grid_id = elim (find_level grid_id s.levels) [
    | none ↦ s
    | some lv ↦ record s { levels = mark_level grid_id idle s.levels }
  ]

  unfoldable pub on_buy_filled :
      LongGridStrategy F → ℕ → LongGridStrategy F × Option (StrategyOrderIntent F)
  unfolding find_level mark_level
  on_buy_filled s grid_id = elim (find_level grid_id s.levels) [
    | none ↦ (s, none)
    | some lv ↦
        if is_bought lv.state
        then (
          record s { levels = mark_level grid_id sell_placed s.levels },
          some (record {
            side = sell;
            type = limit;
            qty = s.cfg.order_qty;
            price = lv.sell_price;
            grid_id = lv.id;
          }),
        )
        else (s, none)
  ]

module _ {F : Type 0} ⦃d : Double F⦄ where
  unfoldable pub round2 : F → F
  round2 v = d.div (d.round (d.mul v (d.lit 100 0))) (d.lit 100 0)

  unfoldable pub sanitize_config : LongGridConfig F → LongGridConfig F
  sanitize_config cfg = record {
    levels = if ltb_ℤ cfg.levels (pos 2) then pos 2 else cfg.levels;
    order_qty = if d.le cfg.order_qty nought then d.lit 1 3 else cfg.order_qty;
    take_profit_ratio =
        if d.le cfg.take_profit_ratio nought then d.lit 2 3 else cfg.take_profit_ratio;
    dynamic_enabled = cfg.dynamic_enabled;
    recenter_threshold_ratio =
        if d.le cfg.recenter_threshold_ratio nought
        then d.lit 4 3
        else cfg.recenter_threshold_ratio;
    band_ratio = if d.le cfg.band_ratio (d.lit 2 3) then d.lit 6 2 else cfg.band_ratio;
  }

  -- Level `i` of the loop of `rebuild_grid`.
  unfoldable pub level_at : F → F → F → ℕ → GridLevel F
  unfolding round2
  level_at lower step take_profit_ratio i =
      let buy_px = d.add lower (d.mul step (d.of_int (pos i))) in
      let sell_px = d.mul buy_px (d.add (d.lit 1 0) take_profit_ratio) in
      record { id = i + 1; buy_price = round2 buy_px; sell_price = round2 sell_px; state = idle }

  -- The levels from `i` on, with `left` rounds of the loop to go.
  unfoldable pub build_levels : F → F → F → ℕ → ℕ → List (GridLevel F)
  unfolding level_at
  build_levels lower step take_profit_ratio i zero = []
  build_levels lower step take_profit_ratio i (suc left) =
      level_at lower step take_profit_ratio i
      ∷ build_levels lower step take_profit_ratio (suc i) left

  -- `i < cfg_.levels` is false at once if the number is negative.
  unfoldable pub rebuild_grid : LongGridStrategy F → F → LongGridStrategy F
  unfolding build_levels
  rebuild_grid s anchor_price =
      let half = d.mul anchor_price (d.mul s.cfg.band_ratio (d.lit 5 1)) in
      let lower = d.sub anchor_price half in
      let upper = d.add anchor_price half in
      let step = d.div (d.sub upper lower) (d.of_int (s.cfg.levels -ℤ pos 1)) in
      record s {
        anchor_price = anchor_price;
        rebuild_count = (s.rebuild_count + 1) % 2 ^ 64;
        levels = build_levels lower step s.cfg.take_profit_ratio 0 (pos_part s.cfg.levels);
      }

  unfoldable pub new_strategy : LongGridConfig F → LongGridStrategy F
  unfolding sanitize_config
  new_strategy cfg = record {
    cfg = sanitize_config cfg;
    levels = [];
    anchor_price = nought;
    rebuild_count = 0;
  }

  unfoldable pub update_config : LongGridStrategy F → LongGridConfig F → LongGridStrategy F
  unfolding sanitize_config rebuild_grid
  update_config s cfg =
      let s' : LongGridStrategy F = record s { cfg = sanitize_config cfg } in
      if d.lt nought s'.anchor_price then rebuild_grid s' s'.anchor_price else s'

  -- An idle level at or above the price.
  abbrev pub is_eligible : F → GridLevel F → Bool
  is_eligible price lv = is_idle lv.state && d.le price lv.buy_price

  abbrev pub distance : F → GridLevel F → F
  distance price lv = d.fabs (d.sub lv.buy_price price)

  abbrev pub is_better : F → GridLevel F → Option (ℕ × GridLevel F) → Bool
  is_better price lv none = true
  is_better price lv (some (j, c)) = d.lt (distance price lv) (distance price c)

  -- One round of the search for the candidate.
  unfoldable pub pick : F → ℕ → GridLevel F → Option (ℕ × GridLevel F) → Option (ℕ × GridLevel F)
  pick price i lv candidate =
      if is_eligible price lv && is_better price lv candidate then some (i, lv) else candidate

  unfoldable pub scan :
      F → ℕ → Option (ℕ × GridLevel F) → List (GridLevel F) → Option (ℕ × GridLevel F)
  unfolding pick
  scan price i candidate [] = candidate
  scan price i candidate (lv ∷ rest) = scan price (suc i) (pick price i lv candidate) rest

  -- The first tick anchors the grid.
  unfoldable pub anchored : LongGridStrategy F → F → LongGridStrategy F
  unfolding rebuild_grid
  anchored s price = if d.le s.anchor_price nought then rebuild_grid s price else s

  -- Whether the price has drifted so far from the anchor that the grid is built anew.
  unfoldable pub has_drifted : LongGridStrategy F → F → Bool
  has_drifted s price =
      let drift = d.div (d.fabs (d.sub price s.anchor_price)) s.anchor_price in
      s.cfg.dynamic_enabled && d.le s.cfg.recenter_threshold_ratio drift

  unfoldable pub recenter : LongGridStrategy F → F → LongGridStrategy F
  unfolding rebuild_grid anchored
  recenter s price =
      let first = anchored s price in
      if has_drifted first price then rebuild_grid first price else first

  place_candidate :
      LongGridStrategy F
      → Option (ℕ × GridLevel F)
      → LongGridStrategy F × List (StrategyOrderIntent F)
  unfolding mark_at
  place_candidate s none = (s, [])
  place_candidate s (some (i, lv)) = (
    record s { levels = mark_at i buy_placed s.levels },
    record {
      side = buy;
      type = limit;
      qty = s.cfg.order_qty;
      price = lv.buy_price;
      grid_id = lv.id;
    }
        ∷ [],
  )

  unfoldable pub on_price_tick :
      LongGridStrategy F → F → LongGridStrategy F × List (StrategyOrderIntent F)
  unfolding recenter scan place_candidate
  on_price_tick s price =
      let s' = recenter s price in
      if d.le price nought then (s, []) else place_candidate s' (scan price 0 none s'.levels)
