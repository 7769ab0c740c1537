-- ===== src/Grid/Choice.antt =====
-- Which level a tick buys at: the search of `on_price_tick`.
use frog_quant.Prelude.{
  ℕ, suc, ◌<◌, ◌≡◌, refl, sym, subst, ap, ◌∙◌, ◌⊎◌, inl, inr, true, false, Option, none, some, List,
  [], ◌∷◌, arith, All,
}
use frog_quant.Double.{Double, nought, IsOrdered}
use frog_quant.Core.Orders.{buy, limit}
use frog_quant.Grid.{
  GridLevel, LongGridStrategy, StrategyOrderIntent, buy_placed, find_level, mark_level, mark_at,
  is_eligible, distance, pick, scan, place_candidate, on_price_tick, recenter,
}
use frog_quant.Grid.Levels.{NumberedFrom, mark_at-mark_level, find_level-id, recenter-NumberedFrom}

module _ {F : Type 0} ⦃d : Double F⦄ where
  -- No eligible level of the list is strictly closer to the price.
  abbrev pub NoneCloser : F → GridLevel F → List (GridLevel F) → Type 0
  NoneCloser price c =
      All λ lv. is_eligible price lv ≡ true → d.lt (distance price lv) (distance price c) ≡ false

  abbrev Beats : F → GridLevel F → Option (ℕ × GridLevel F) → Type 0
  Beats price c none = Unit
  Beats price c (some (k, b)) = d.lt (distance price c) (distance price b) ≡ true

  -- What the search over the rest of the levels makes of the candidate so far.
  abbrev Outcome :
      F → Option (ℕ × GridLevel F) → List (GridLevel F) → Option (ℕ × GridLevel F) → Type 0
  Outcome price before ls none = (before ≡ none) × All (λ lv. is_eligible price lv ≡ false) ls
  Outcome price before ls (some (j, c)) =
      ((before ≡ some (j, c))
        ⊎ ((find_level (suc j) ls ≡ some c) × (is_eligible price c ≡ true) × Beats price c before))
      × NoneCloser price c ls

  find_level_below :
      (k grid_id : ℕ) (ls : List (GridLevel F))
      → NumberedFrom k ls
      → grid_id < k
      → find_level grid_id ls ≡ none
  unfolding find_level
  find_level_below k grid_id [] h lt = refl
  find_level_below k grid_id (lv ∷ rest) h lt =
      ground (arith, find_level_below (suc k) grid_id rest h.1)

  module _ (laws : IsOrdered F) where
    open laws use {lt_trans, lt-eq-not-le, le_of_lt}

    lt_irrefl : (x : F) → d.lt x x ≡ false
    lt_irrefl x = ground (arith, le_of_lt x x, lt-eq-not-le x x)

    pick-Outcome :
        (price : F) (i : ℕ) (lv : GridLevel F) (rest : List (GridLevel F))
        (before r : Option (ℕ × GridLevel F))
        → NumberedFrom (suc i) (lv ∷ rest)
        → Outcome price (pick price i lv before) rest r
        → Outcome price before (lv ∷ rest) r
    unfolding pick find_level
    pick-Outcome price i lv rest none none h o = ground arith
    pick-Outcome price i lv rest (some (k, b)) none h o = ground arith
    pick-Outcome price i lv rest none (some (j, c)) h o = ground (
      arith,
      lt_irrefl (distance price lv),
      lt_irrefl (distance price c),
      lt_trans (distance price lv) (distance price c) (distance price lv),
      find_level_below (suc (suc i)) (suc j) rest h.1,
    )
    pick-Outcome price i lv rest (some (k, b)) (some (j, c)) h o = ground (
      arith,
      lt_irrefl (distance price lv),
      lt_irrefl (distance price c),
      lt_trans (distance price lv) (distance price c) (distance price lv),
      find_level_below (suc (suc i)) (suc j) rest h.1,
      lt_trans (distance price lv) (distance price c) (distance price b),
      lt_trans (distance price c) (distance price lv) (distance price b),
    )

    scan-Outcome :
        (price : F) (i : ℕ) (before : Option (ℕ × GridLevel F)) (ls : List (GridLevel F))
        → NumberedFrom (suc i) ls
        → Outcome price before ls (scan price i before ls)
    unfolding scan
    scan-Outcome price i none [] h = (refl, tt)
    scan-Outcome price i (some (k, b)) [] h = (inl refl, tt)
    scan-Outcome price i before (lv ∷ rest) h =
        pick-Outcome price i lv rest before (scan price (suc i) (pick price i lv before) rest) h
          (scan-Outcome price (suc i) (pick price i lv before) rest h.1)

module _ {F : Type 0} where
  abbrev pub buy_intent : LongGridStrategy F → GridLevel F → StrategyOrderIntent F
  buy_intent s c = record {
    side = buy;
    type = limit;
    qty = s.cfg.order_qty;
    price = c.buy_price;
    grid_id = c.id;
  }

module _ {F : Type 0} ⦃d : Double F⦄ where
  -- No order: no level of the grid is idle with its buy price at or above the price.
  abbrev pub IsQuiet :
      LongGridStrategy F → F → LongGridStrategy F × List (StrategyOrderIntent F) → Type 0
  IsQuiet s price (t, out) =
      (t ≡ s) × (out ≡ []) × All (λ lv. is_eligible price lv ≡ false) s.levels

  -- One order: at an idle level with its buy price at or above the price, such that no other
  -- such level is strictly closer. This level alone is marked.
  abbrev pub BuysAt :
      LongGridStrategy F
      → F
      → GridLevel F
      → LongGridStrategy F × List (StrategyOrderIntent F)
      → Type 0
  BuysAt s price c (t, out) =
      (find_level c.id s.levels ≡ some c)
      × (is_eligible price c ≡ true)
      × NoneCloser price c s.levels
      × (t ≡ record s { levels = mark_level c.id buy_placed s.levels })
      × (out ≡ buy_intent s c ∷ [])

  place_lem :
      (s : LongGridStrategy F) (price : F) (r : Option (ℕ × GridLevel F))
      → NumberedFrom 1 s.levels
      → Outcome price none s.levels r
      → IsQuiet s price (place_candidate s r)
        ⊎ ((c : GridLevel F) × BuysAt s price c (place_candidate s r))
  unfolding place_candidate
  place_lem s price none h o = inl (refl, refl, o.1)
  place_lem s price (some (i, c)) h (inl e, o) = absurd (cc e)
  place_lem s price (some (i, c)) h (inr (found, ok, beats), o) =
      let own : c.id ≡ suc i = find_level-id (suc i) s.levels c found in
      let same : mark_at i buy_placed s.levels ≡ mark_level c.id buy_placed s.levels =
        mark_at-mark_level 1 i buy_placed s.levels h
        ∙ ap (λ k. mark_level k buy_placed s.levels) (omega arith) in
      inr (
        c,
        (
          subst (λ k. find_level k s.levels ≡ some c) (sym own) found,
          ok,
          o,
          ap (λ ls. record s { levels = ls }) same,
          refl,
        ),
      )

  -- A tick with a positive price first recenters the grid, and then places at most one order: a
  -- limit buy of the configured quantity at the buy price of an idle level that is not below the
  -- market price, the closest such level; it places none only if there is no such level.
  pub on_price_tick_lem :
      (laws : IsOrdered F) (s : LongGridStrategy F) (price : F)
      → d.le price nought ≡ false
      → NumberedFrom 1 s.levels
      → let s' = recenter s price in
        IsQuiet s' price (on_price_tick s price)
        ⊎ ((c : GridLevel F) × BuysAt s' price c (on_price_tick s price))
  unfolding on_price_tick
  on_price_tick_lem laws s price positive h =
      let s' = recenter s price in
      rw (positive, on_price_tick)
        (place_lem s' price (scan price 0 none s'.levels) (recenter-NumberedFrom s price h)
          (scan-Outcome laws price 0 none s'.levels (recenter-NumberedFrom s price h)))
