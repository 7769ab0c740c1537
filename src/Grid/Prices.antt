-- ===== src/Grid/Prices.antt =====
-- The prices of the levels that strategy/long_grid_strategy.cpp lays out.
use frog_quant.Prelude.{
  ℕ, zero, suc, ◌+◌, ◌≤◌, ◌<◌, ◌-ℤ◌, ◌≡◌, pos, pos_part, true, List, [], ◌∷◌, arith, All,
}
use frog_quant.Double.{Double, nought, IsNumber}
use frog_quant.Grid.{GridLevel, LongGridStrategy, round2, level_at, build_levels, rebuild_grid}

-- The operations of IEEE 754 keep the order, where their results are numbers.
pub record IsMonotone (F : Type 0) ⦃d : Double F⦄ : Type 0 where
  pub of_int_mono : (m n : ℕ) → m ≤ n → d.le (d.of_int (pos m)) (d.of_int (pos n)) ≡ true
  pub add_mono :
      (z x y : F)
      → d.le x y ≡ true
      → IsNumber (d.add z x)
      → IsNumber (d.add z y)
      → d.le (d.add z x) (d.add z y) ≡ true
  pub mul_mono :
      (z x y : F)
      → d.le nought z ≡ true
      → d.le x y ≡ true
      → IsNumber (d.mul z x)
      → IsNumber (d.mul z y)
      → d.le (d.mul z x) (d.mul z y) ≡ true
  pub hundred_mono :
      (x y : F)
      → d.le x y ≡ true
      → IsNumber (d.mul x (d.lit 100 0))
      → IsNumber (d.mul y (d.lit 100 0))
      → d.le (d.mul x (d.lit 100 0)) (d.mul y (d.lit 100 0)) ≡ true
  pub round_mono : (x y : F) → d.le x y ≡ true → d.le (d.round x) (d.round y) ≡ true
  pub hundredth_mono :
      (x y : F) → d.le x y ≡ true → d.le (d.div x (d.lit 100 0)) (d.div y (d.lit 100 0)) ≡ true
  pub mul_grows :
      (x z : F)
      → d.le nought x ≡ true
      → d.le (d.lit 1 0) z ≡ true
      → IsNumber (d.mul x z)
      → d.le x (d.mul x z) ≡ true
  pub le_trans : (x y z : F) → d.le x y ≡ true → d.le y z ≡ true → d.le x z ≡ true

module _ {F : Type 0} ⦃d : Double F⦄ where
  -- The lowest price of a grid, and the step from a level to the next.
  abbrev pub lower_price : LongGridStrategy F → F → F
  lower_price s anchor = d.sub anchor (d.mul anchor (d.mul s.cfg.band_ratio (d.lit 5 1)))

  abbrev pub price_step : LongGridStrategy F → F → F
  price_step s anchor =
      let half = d.mul anchor (d.mul s.cfg.band_ratio (d.lit 5 1)) in
      d.div (d.sub (d.add anchor half) (d.sub anchor half)) (d.of_int (s.cfg.levels -ℤ pos 1))

  -- The price of a level before it is rounded.
  abbrev pub raw_price : F → F → ℕ → F
  raw_price lower step i = d.add lower (d.mul step (d.of_int (pos i)))

  -- The products and sums that lead to the prices of level `i` are numbers.
  pub record IsFinite (lower step ratio : F) (i : ℕ) : Type 0 where
    pub offset : IsNumber (d.mul step (d.of_int (pos i)))
    pub price : IsNumber (raw_price lower step i)
    pub cents : IsNumber (d.mul (raw_price lower step i) (d.lit 100 0))
    pub sale : IsNumber (d.mul (raw_price lower step i) (d.add (d.lit 1 0) ratio))
    pub sale_cents :
        IsNumber (d.mul (d.mul (raw_price lower step i) (d.add (d.lit 1 0) ratio)) (d.lit 100 0))

  -- Each level buys at the price of the one before it, or above.
  abbrev pub AscendingFrom : F → List (GridLevel F) → Type 0
  AscendingFrom p [] = Unit
  AscendingFrom p (lv ∷ rest) = (d.le p lv.buy_price ≡ true) × AscendingFrom lv.buy_price rest

  abbrev pub IsAscending : List (GridLevel F) → Type 0
  IsAscending [] = Unit
  IsAscending (lv ∷ rest) = AscendingFrom lv.buy_price rest

  module _ (laws : IsMonotone F) where
    round2_mono :
        (x y : F)
        → d.le x y ≡ true
        → IsNumber (d.mul x (d.lit 100 0))
        → IsNumber (d.mul y (d.lit 100 0))
        → d.le (round2 x) (round2 y) ≡ true
    unfolding round2
    round2_mono x y h nx ny =
        laws.hundredth_mono _ _ (laws.round_mono _ _ (laws.hundred_mono x y h nx ny))

    module _ (lower step ratio : F) (n : ℕ) (rising : d.le nought step ≡ true)
        (finite : (i : ℕ) → i < n → IsFinite lower step ratio i) where
      raw_price_mono :
          (i j : ℕ) → i ≤ j → j < n → d.le (raw_price lower step i) (raw_price lower step j) ≡ true
      raw_price_mono i j h low =
          let fi = finite i (omega arith) in
          let fj = finite j low in
          laws.add_mono lower _ _
            (laws.mul_mono step _ _ rising (laws.of_int_mono i j h) fi.offset fj.offset) fi.price
            fj.price

      buy_price_mono :
          (i j : ℕ)
          → i ≤ j
          → j < n
          → d.le (level_at lower step ratio i).buy_price (level_at lower step ratio j).buy_price
            ≡ true
      unfolding level_at
      buy_price_mono i j h low =
          round2_mono _ _ (raw_price_mono i j h low) (finite i (omega arith)).cents
            (finite j low).cents

      build_levels-AscendingFrom :
          (i left : ℕ)
          → suc i + left ≤ n
          → AscendingFrom
              (level_at lower step ratio i).buy_price
              (build_levels lower step ratio (suc i) left)
      unfolding build_levels
      build_levels-AscendingFrom i zero h = tt
      build_levels-AscendingFrom i (suc left) h = (
        buy_price_mono i (suc i) (omega arith) (omega arith),
        build_levels-AscendingFrom (suc i) left (omega arith),
      )

      build_levels-IsAscending :
          (i left : ℕ) → i + left ≤ n → IsAscending (build_levels lower step ratio i left)
      unfolding build_levels
      build_levels-IsAscending i zero h = tt
      build_levels-IsAscending i (suc left) h = build_levels-AscendingFrom i left (omega arith)

      module _ (nonneg : d.le nought (raw_price lower step 0) ≡ true)
          (profit : d.le (d.lit 1 0) (d.add (d.lit 1 0) ratio) ≡ true) where
        level_at-sells :
            (i : ℕ)
            → i < n
            → d.le (level_at lower step ratio i).buy_price (level_at lower step ratio i).sell_price
              ≡ true
        unfolding level_at
        level_at-sells i h =
            let positive = laws.le_trans _ _ _ nonneg (raw_price_mono 0 i (omega arith) h) in
            round2_mono _ _ (laws.mul_grows _ _ positive profit (finite i h).sale)
              (finite i h).cents (finite i h).sale_cents

        build_levels-sells :
            (i left : ℕ)
            → i + left ≤ n
            → All
                (λ lv. d.le lv.buy_price lv.sell_price ≡ true)
                (build_levels lower step ratio i left)
        unfolding build_levels
        build_levels-sells i zero h = tt
        build_levels-sells i (suc left) h =
            (level_at-sells i (omega arith), build_levels-sells (suc i) left (omega arith))

    -- A grid that is rebuilt around an anchor, from a lowest price that is not negative and with a step
    -- that is not negative: the levels buy at prices that never fall from one to the next, and each
    -- sells at its own buy price or above, after both are rounded to cents. (One plus the ratio is at
    -- least one, the products and sums on the way are numbers, and doubles keep the order as in
    -- IEEE 754.)
    pub rebuild_grid-prices :
        (s : LongGridStrategy F) (anchor : F)
        → d.le nought (price_step s anchor) ≡ true
        → d.le nought (raw_price (lower_price s anchor) (price_step s anchor) 0) ≡ true
        → d.le (d.lit 1 0) (d.add (d.lit 1 0) s.cfg.take_profit_ratio) ≡ true
        → ((i : ℕ)
            → i < pos_part s.cfg.levels
            → IsFinite (lower_price s anchor) (price_step s anchor) s.cfg.take_profit_ratio i)
        → let levels = (rebuild_grid s anchor).levels in
          IsAscending levels × All (λ lv. d.le lv.buy_price lv.sell_price ≡ true) levels
    unfolding rebuild_grid
    rebuild_grid-prices s anchor rising nonneg profit finite =
        let lower = lower_price s anchor in
        let step = price_step s anchor in
        let ratio = s.cfg.take_profit_ratio in
        let n = pos_part s.cfg.levels in
        (
          build_levels-IsAscending lower step ratio n rising finite 0 n (omega arith),
          build_levels-sells lower step ratio n rising finite nonneg profit 0 n (omega arith),
        )
