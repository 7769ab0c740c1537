-- ===== src/Grid/Fills.antt =====
-- What becomes of the orders of the grid when they are filled.
use frog_quant.Prelude.{
  ℕ, ◌≡◌, ◌≢◌, refl, sym, ap, subst, ◌∙◌, inl, inr, true, false, none, some, List, [], ◌∷◌, ◌==◌,
  arith, Bool-cases, Option-cases, All, pos_part,
}
use frog_quant.Double.{Double, nought, IsOrdered}
use frog_quant.Core.Orders.{buy, sell, limit}
use frog_quant.Grid.{
  GridLevel, GridLevelState, LongGridStrategy, StrategyOrderIntent, idle, buy_placed, sell_placed,
  find_level, mark_level, on_price_tick, recenter, on_buy_filled, on_sell_filled, rebuild_grid,
  has_drifted, anchored,
}
use frog_quant.Grid.Levels.{
  NumberedFrom, find_level-mark_level, mark_level-mark_level, mark_level_self, build_levels_lem,
}
use frog_quant.Grid.Choice.{buy_intent, on_price_tick_lem}

module _ {F : Type 0} where
  -- The order that takes the profit of a level.
  abbrev pub sell_intent : LongGridStrategy F → GridLevel F → StrategyOrderIntent F
  sell_intent s c = record {
    side = sell;
    type = limit;
    qty = s.cfg.order_qty;
    price = c.sell_price;
    grid_id = c.id;
  }

  abbrev pub with_levels : LongGridStrategy F → List (GridLevel F) → LongGridStrategy F
  with_levels s ls = record s { levels = ls }

  -- A level that is marked in a list of levels is found with its mark.
  find_marked :
      (state : GridLevelState) (ls : List (GridLevel F)) (c : GridLevel F)
      → find_level c.id ls ≡ some c
      → find_level c.id (mark_level c.id state ls) ≡ some (record c { state = state })
  find_marked state ls c found = ground (arith, find_level-mark_level c.id c.id state ls)

  buy-sell_marked :
      (s : LongGridStrategy F) (c : GridLevel F)
      → find_level c.id s.levels ≡ some c
      → on_buy_filled (with_levels s (mark_level c.id buy_placed s.levels)) c.id
        ≡ (with_levels s (mark_level c.id sell_placed s.levels), some (sell_intent s c))
  unfolding on_buy_filled
  buy-sell_marked s c found =
      rw (find_marked buy_placed s.levels c found, on_buy_filled)
        (rw (mark_level-mark_level c.id buy_placed sell_placed s.levels) refl)

  sold_twice :
      (s : LongGridStrategy F) (c : GridLevel F)
      → find_level c.id s.levels ≡ some c
      → let u = with_levels s (mark_level c.id sell_placed s.levels) in
        on_buy_filled u c.id ≡ (u, none)
  unfolding on_buy_filled
  sold_twice s c found = rw (find_marked sell_placed s.levels c found, on_buy_filled) refl

  sell-idle_marked :
      (s : LongGridStrategy F) (c : GridLevel F)
      → find_level c.id s.levels ≡ some c
      → c.state ≡ idle
      → on_sell_filled (with_levels s (mark_level c.id sell_placed s.levels)) c.id ≡ s
  unfolding on_sell_filled
  sell-idle_marked s c found fresh =
      rw (find_marked sell_placed s.levels c found, on_sell_filled)
        (ap (with_levels s) (
          mark_level-mark_level c.id sell_placed idle s.levels
          ∙ ap (λ st. mark_level c.id st s.levels) (sym fresh)
          ∙ mark_level_self c.id s.levels c found))

  -- What follows an order `i` that the strategy `t` has placed on the grid of `s`.
  abbrev pub Life : LongGridStrategy F → LongGridStrategy F → StrategyOrderIntent F → Type 0
  Life s t i =
      let (u, answer) = on_buy_filled t i.grid_id in
      (i.side ≡ buy)
      × (i.type ≡ limit)
      × (i.qty ≡ s.cfg.order_qty)
      × ((c : GridLevel F) × (find_level i.grid_id s.levels ≡ some c)
          × (i.price ≡ c.buy_price)
          × (answer
              ≡ some (record {
                side = sell;
                type = limit;
                qty = i.qty;
                price = c.sell_price;
                grid_id = i.grid_id;
              })))
      × (on_buy_filled u i.grid_id ≡ (u, none))
      × (on_sell_filled u i.grid_id ≡ s)

  Life-buy_intent :
      (s : LongGridStrategy F) (c : GridLevel F)
      → find_level c.id s.levels ≡ some c
      → c.state ≡ idle
      → Life s (with_levels s (mark_level c.id buy_placed s.levels)) (buy_intent s c)
  Life-buy_intent s c found fresh = rw (buy-sell_marked s c found) (
    refl,
    refl,
    refl,
    (c, found, refl, refl),
    sold_twice s c found,
    sell-idle_marked s c found fresh,
  )

  find_level-All {κ} :
      (P : GridLevel F → Type κ) (grid_id : ℕ) (ls : List (GridLevel F)) (lv : GridLevel F)
      → All P ls
      → find_level grid_id ls ≡ some lv
      → P lv
  unfolding find_level
  find_level-All P grid_id [] lv h found = absurd (cc found)
  find_level-All P grid_id (x ∷ rest) lv (h, hs) found = elim (Bool-cases (x.id == grid_id)) [
    | inl e ↦ subst P (ground arith) h
    | inr e ↦ find_level-All P grid_id rest lv hs (ground arith)
  ]

  idle-on_buy_filled :
      (s : LongGridStrategy F) (grid_id : ℕ)
      → ((lv : GridLevel F) → find_level grid_id s.levels ≡ some lv → lv.state ≡ idle)
      → (on_buy_filled s grid_id).1 ≡ none
  unfolding on_buy_filled
  idle-on_buy_filled s grid_id h = elim (Option-cases (find_level grid_id s.levels)) [
    | inl e ↦ rw (e, on_buy_filled) refl
    | inr (lv, e) ↦ let fresh = h lv e in ground arith
  ]

module _ {F : Type 0} ⦃d : Double F⦄ where
  -- The life of an order that a tick with a positive price places, on a grid whose levels are
  -- numbered from 1: it is a limit buy of the configured quantity at the buy price of its level, the
  -- fill of the buy is answered with a limit sale of the quantity that was bought, at the sell price
  -- of that level and under the same id, another report of that fill is answered with nothing and
  -- changes nothing, and the fill of the sale leaves the grid exactly as the tick had found it after
  -- recentering.
  pub fill_round_trip :
      (laws : IsOrdered F) (s : LongGridStrategy F) (price : F) (i : StrategyOrderIntent F)
      → d.le price nought ≡ false
      → NumberedFrom 1 s.levels
      → (on_price_tick s price).1 ≡ i ∷ []
      → Life (recenter s price) (on_price_tick s price).0 i
  fill_round_trip laws s price i positive h placed =
      elim (on_price_tick_lem laws s price positive h) [
        | inl (same, quiet, rest) ↦ absurd (cc)
        | inr (c, (found, ok, closest, marked, out)) ↦
            let s' : LongGridStrategy F = recenter s price in
            let own : i ≡ buy_intent s' c = cc in
            subst (λ t. Life s' t i) (sym marked)
              (subst (Life s' (with_levels s' (mark_level c.id buy_placed s'.levels))) (sym own)
                (Life-buy_intent s' c found (ground arith)))
      ]

  recenter-idle :
      (s : LongGridStrategy F) (price : F)
      → has_drifted (anchored s price) price ≡ true
      → All (λ lv. lv.state ≡ idle) (recenter s price).levels
  unfolding recenter rebuild_grid
  recenter-idle s price far =
      rw (far, recenter) ((build_levels_lem _ _ _ 0 (pos_part (anchored s price).cfg.levels)).2)

  -- A tick that builds the grid anew forgets the orders that were placed before it: the fill of a
  -- buy is then answered with nothing, and so with no sale, for every id but the one of an order
  -- that this tick itself has placed.
  pub recenter_forgets :
      (laws : IsOrdered F) (s : LongGridStrategy F) (price : F) (grid_id : ℕ)
      → d.le price nought ≡ false
      → NumberedFrom 1 s.levels
      → has_drifted (anchored s price) price ≡ true
      → All (λ i. i.grid_id ≢ grid_id) (on_price_tick s price).1
      → (on_buy_filled (on_price_tick s price).0 grid_id).1 ≡ none
  recenter_forgets laws s price grid_id positive h far others =
      elim (on_price_tick_lem laws s price positive h) [
        | inl (same, quiet, rest) ↦ rw same (
            idle-on_buy_filled _ grid_id
              (λ lv. find_level-All (λ x. x.state ≡ idle) grid_id _ lv (recenter-idle s price far)))
        | inr (c, (found, ok, closest, marked, out)) ↦
            let other : c.id ≢ grid_id = (subst (All (λ i. i.grid_id ≢ grid_id)) out others).0 in
            rw marked (
              idle-on_buy_filled _ grid_id (λ lv e.
                find_level-All (λ x. x.state ≡ idle) grid_id _ lv (recenter-idle s price far)
                  (ground (
                    arith,
                    find_level-mark_level c.id grid_id buy_placed (recenter s price).levels,
                  ))))
      ]
