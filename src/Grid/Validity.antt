-- ===== src/Grid/Validity.antt =====
-- What holds of a strategy after any sequence of calls: its configuration and its levels.
use frog_quant.Prelude.{
  ℕ, ◌+◌, ◌≤◌, ◌≡◌, ◌≢◌, refl, ◌∙◌, ◌⊎◌, inl, inr, true, false, Option, none, some, List, [], ◌∷◌,
  arith, Bool-cases, All, All-mono, pos_part, length, if_cases,
}
use frog_quant.Double.{Double, nought}
use frog_quant.Grid.{
  GridLevel, GridLevelState, LongGridConfig, LongGridStrategy, idle, buy_placed, buy_filled,
  sell_placed, mark_level, on_price_tick, recenter, on_buy_filled, on_sell_filled, rebuild_grid,
  sanitize_config, new_strategy, update_config, place_candidate, scan,
}
use frog_quant.Grid.Levels.{
  NumberedFrom, mark_level-NumberedFrom, mark_at-mark_level, recenter_cases, build_levels_lem,
}

-- How the literals of `sanitize_config` compare.
pub record HasDefaults (F : Type 0) ⦃d : Double F⦄ : Type 0 where
  pub qty_pos : d.le (d.lit 1 3) nought ≡ false
  pub profit_pos : d.le (d.lit 2 3) nought ≡ false
  pub threshold_pos : d.le (d.lit 4 3) nought ≡ false
  pub band_wide : d.le (d.lit 6 2) (d.lit 2 3) ≡ false

module _ {F : Type 0} ⦃d : Double F⦄ where
  -- At least two levels, and no quantity, ratio or band that is too small.
  pub record IsSane (cfg : LongGridConfig F) : Type 0 where
    pub levels : 2 ≤ pos_part cfg.levels
    pub order_qty : d.le cfg.order_qty nought ≡ false
    pub take_profit_ratio : d.le cfg.take_profit_ratio nought ≡ false
    pub recenter_threshold_ratio : d.le cfg.recenter_threshold_ratio nought ≡ false
    pub band_ratio : d.le cfg.band_ratio (d.lit 2 3) ≡ false

  -- Sanitizing gives a sane configuration, whatever it is given, and leaves a sane one as it is.
  pub sanitize_config-IsSane :
      (defaults : HasDefaults F) (cfg : LongGridConfig F)
      → IsSane (sanitize_config cfg) × (IsSane cfg → sanitize_config cfg ≡ cfg)
  unfolding sanitize_config
  sanitize_config-IsSane defaults cfg = (ground arith, λ sane. ground arith)

-- The public methods that change the state.
pub data Event (F : Type 0) : Type 0 where
  ticks : F → Event F
  buy_fills sell_fills : ℕ → Event F
  updates : LongGridConfig F → Event F

module _ {F : Type 0} ⦃d : Double F⦄ where
  unfoldable pub handle : LongGridStrategy F → Event F → LongGridStrategy F
  handle s (ticks price) = (on_price_tick s price).0
  handle s (buy_fills grid_id) = (on_buy_filled s grid_id).0
  handle s (sell_fills grid_id) = on_sell_filled s grid_id
  handle s (updates cfg) = update_config s cfg

  unfoldable pub run : LongGridStrategy F → List (Event F) → LongGridStrategy F
  run s [] = s
  run s (e ∷ rest) = run (handle s e) rest

  -- The configuration is sane. The levels are the configured number, with the ids 1, 2, … in order, or there are none yet,
  -- and there are some only around a positive anchor; none is in the state `BuyFilled`.
  pub record IsValid (s : LongGridStrategy F) : Type 0 where
    pub sane : IsSane s.cfg
    pub anchored : (d.lt nought s.anchor_price ≡ true) ⊎ (s.levels ≡ [])
    pub numbered : NumberedFrom 1 s.levels
    pub count : (s.levels ≡ []) ⊎ (length s.levels ≡ pos_part s.cfg.levels)
    pub live : All (λ lv. lv.state ≢ buy_filled) s.levels

  mark_level-keeps :
      (grid_id : ℕ) (state : GridLevelState) (ls : List (GridLevel F))
      → state ≢ buy_filled
      → All (λ lv. lv.state ≢ buy_filled) ls
      → (length (mark_level grid_id state ls) ≡ length ls)
        × All (λ lv. lv.state ≢ buy_filled) (mark_level grid_id state ls)
  unfolding mark_level
  mark_level-keeps grid_id state [] other h = (refl, tt)
  mark_level-keeps grid_id state (lv ∷ rest) other h =
      ground (arith, mark_level-keeps grid_id state rest other h.1)

  mark_level-IsValid :
      (s : LongGridStrategy F) (grid_id : ℕ) (state : GridLevelState)
      → state ≢ buy_filled
      → IsValid s
      → IsValid (record s { levels = mark_level grid_id state s.levels })
  unfolding mark_level
  mark_level-IsValid s grid_id state other v =
      let (count, live) = mark_level-keeps grid_id state s.levels other v.live in
      record {
        sane = v.sane;
        anchored = elim v.anchored [ inl e ↦ inl e | inr e ↦ inr (rw e refl) ];
        numbered = mark_level-NumberedFrom 1 grid_id state s.levels v.numbered;
        count = elim v.count [ inl e ↦ inl (rw e refl) | inr e ↦ inr (count ∙ e) ];
        live = live;
      }

  idle-ne-buy_filled : (lv : GridLevel F) → lv.state ≡ idle → lv.state ≢ buy_filled
  idle-ne-buy_filled lv e = ground arith

  rebuild_grid-IsValid :
      (s : LongGridStrategy F) (anchor : F)
      → IsSane s.cfg
      → d.lt nought anchor ≡ true
      → IsValid (rebuild_grid s anchor)
  unfolding rebuild_grid
  rebuild_grid-IsValid s anchor sane positive =
      let (ids, count, fresh) = build_levels_lem _ _ _ 0 (pos_part s.cfg.levels) in
      record {
        sane = sane;
        anchored = inl positive;
        numbered = ids;
        count = inr count;
        live =
            All-mono (λ lv. lv.state ≡ idle) (λ lv. lv.state ≢ buy_filled) _
              (λ lv e. idle-ne-buy_filled lv e) fresh;
      }

  place_candidate-IsValid :
      (s : LongGridStrategy F) (r : Option (ℕ × GridLevel F))
      → IsValid s
      → IsValid (place_candidate s r).0
  unfolding place_candidate
  place_candidate-IsValid s none v = v
  place_candidate-IsValid s (some (i, c)) v =
      rw (mark_at-mark_level 1 i buy_placed s.levels v.numbered)
        (mark_level-IsValid s (1 + i) buy_placed (λ e. cc e) v)

  -- A price that is not positive is zero or less, and no NaN.
  abbrev pub IsPrice : F → Type 0
  IsPrice price = (d.le price nought ≡ true) ⊎ (d.lt nought price ≡ true)

  on_price_tick-IsValid :
      (s : LongGridStrategy F) (price : F)
      → IsPrice price
      → IsValid s
      → IsValid (on_price_tick s price).0
  unfolding on_price_tick
  on_price_tick-IsValid s price (inl none_yet) v = rw (none_yet, on_price_tick) v
  on_price_tick-IsValid s price (inr positive) v =
      let s' = recenter s price in
      let valid : IsValid s' =
        recenter_cases IsValid s price v (λ t w. rebuild_grid-IsValid t price w.sane positive) in
      let placed = place_candidate s' (scan price 0 none s'.levels) in
      if_cases (λ r. IsValid r.0) (d.le price nought) (s, []) placed v
        (place_candidate-IsValid s' (scan price 0 none s'.levels) valid)

  on_buy_filled-IsValid :
      (s : LongGridStrategy F) (grid_id : ℕ) → IsValid s → IsValid (on_buy_filled s grid_id).0
  unfolding on_buy_filled
  on_buy_filled-IsValid s grid_id v =
      let sold = mark_level-IsValid s grid_id sell_placed (λ e. cc e) v in ground arith

  on_sell_filled-IsValid :
      (s : LongGridStrategy F) (grid_id : ℕ) → IsValid s → IsValid (on_sell_filled s grid_id)
  unfolding on_sell_filled
  on_sell_filled-IsValid s grid_id v =
      let freed = mark_level-IsValid s grid_id idle (λ e. cc e) v in ground arith

  update_config-IsValid :
      (defaults : HasDefaults F) (s : LongGridStrategy F) (cfg : LongGridConfig F)
      → IsValid s
      → IsValid (update_config s cfg)
  unfolding update_config
  update_config-IsValid defaults s cfg v =
      let sane = (sanitize_config-IsSane defaults cfg).0 in
      let s' : LongGridStrategy F = record s { cfg = sanitize_config cfg } in
      elim v.anchored [
        | inl positive ↦
            rw (positive, update_config) (rebuild_grid-IsValid s' s.anchor_price sane positive)
        | inr empty ↦ elim (Bool-cases (d.lt nought s.anchor_price)) [
          | inl positive ↦
              rw (positive, update_config) (rebuild_grid-IsValid s' s.anchor_price sane positive)
          | inr e ↦
              rw (e, update_config)
                (record {
                  sane = sane;
                  anchored = inr empty;
                  numbered = v.numbered;
                  count = inl empty;
                  live = v.live;
                })
        ]
      ]

  -- Every price of a tick is a number.
  abbrev pub IsRegular : Event F → Type 0
  IsRegular (ticks price) = IsPrice price
  IsRegular _ = Unit {0}

  handle-IsValid :
      (defaults : HasDefaults F) (s : LongGridStrategy F) (e : Event F)
      → IsRegular e
      → IsValid s
      → IsValid (handle s e)
  unfolding handle
  handle-IsValid defaults s (ticks price) h v = on_price_tick-IsValid s price h v
  handle-IsValid defaults s (buy_fills grid_id) h v = on_buy_filled-IsValid s grid_id v
  handle-IsValid defaults s (sell_fills grid_id) h v = on_sell_filled-IsValid s grid_id v
  handle-IsValid defaults s (updates cfg) h v = update_config-IsValid defaults s cfg v

  run-IsValid :
      (defaults : HasDefaults F) (s : LongGridStrategy F) (history : List (Event F))
      → All IsRegular history
      → IsValid s
      → IsValid (run s history)
  unfolding run
  run-IsValid defaults s [] h v = v
  run-IsValid defaults s (e ∷ rest) (h, hs) v =
      run-IsValid defaults (handle s e) rest hs (handle-IsValid defaults s e h v)

  -- From a new strategy with any configuration, through any sequence of ticks whose prices are
  -- numbers, fills of any ids and new configurations: the configuration is sane; the levels are
  -- the configured number with the ids 1, 2, … in order, or there are none yet; there are some only
  -- around a positive anchor; and the state `BuyFilled` is never entered.
  pub new-run-IsValid :
      (defaults : HasDefaults F) (cfg : LongGridConfig F) (history : List (Event F))
      → All IsRegular history
      → IsValid (run (new_strategy cfg) history)
  unfolding new_strategy
  new-run-IsValid defaults cfg history h =
      run-IsValid defaults (new_strategy cfg) history h (record {
        sane = (sanitize_config-IsSane defaults cfg).0;
        anchored = inr refl;
        numbered = tt;
        count = inl refl;
        live = tt;
      })
