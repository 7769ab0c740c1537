-- ===== src/Tests/PriceTests.antt =====
-- The prices of a grid of six levels around 100, in whole millionths.
use frog_quant.Prelude.{
  ℕ, zero, suc, ◌*◌, ◌/◌, ◌≤◌, ◌≡◌, refl, true, ℤ, pos, negsuc, leb_ℤ, sub_ℕ, arith, All,
}
use frog_quant.Double.{nought, IsNumber}
use frog_quant.Double.Fixed.{Fixed, fixed_double, nan, micro}
use frog_quant.Grid.{LongGridConfig, LongGridStrategy, new_strategy, rebuild_grid, sanitize_config}
use frog_quant.Grid.Prices.{
  IsMonotone, IsFinite, IsAscending, lower_price, price_step, raw_price, rebuild_grid-prices,
}
use frog_quant.Tests.Inputs.{usd}

abbrev F : Type 0
F = Fixed

times_mono : (c a b : ℕ) → a ≤ b → c * a ≤ c * b
times_mono zero a b h = omega arith
times_mono (suc c) a b h = omega (arith, times_mono c a b h)

leb_refl : (x : ℤ) → leb_ℤ x x ≡ true
leb_refl x = ground arith

fixed-of_int_mono :
    (m n : ℕ)
    → m ≤ n
    → fixed_double.le (fixed_double.of_int (pos m)) (fixed_double.of_int (pos n)) ≡ true
fixed-of_int_mono m n h = ground arith

fixed-add_mono :
    (z x y : Fixed)
    → fixed_double.le x y ≡ true
    → IsNumber (fixed_double.add z x)
    → IsNumber (fixed_double.add z y)
    → fixed_double.le (fixed_double.add z x) (fixed_double.add z y) ≡ true
fixed-add_mono nan x y h k l = cc
fixed-add_mono (micro c) nan y h k l = cc
fixed-add_mono (micro c) (micro a) nan h k l = cc
fixed-add_mono (micro c) (micro a) (micro b) h k l = ground arith

not_below : (a b : ℕ) → leb_ℤ (pos a) (negsuc b) ≡ true → ⊥
not_below a b h = ground arith

fixed-hundred_mono :
    (x y : Fixed)
    → fixed_double.le x y ≡ true
    → IsNumber (fixed_double.mul x (fixed_double.lit 100 0))
    → IsNumber (fixed_double.mul y (fixed_double.lit 100 0))
    → fixed_double.le
        (fixed_double.mul x (fixed_double.lit 100 0))
        (fixed_double.mul y (fixed_double.lit 100 0))
      ≡ true
fixed-hundred_mono nan y h k l = cc
fixed-hundred_mono (micro a) nan h k l = cc
fixed-hundred_mono (micro a) (micro b) h k l = ground arith

fixed-round_mono :
    (x y : Fixed)
    → fixed_double.le x y ≡ true
    → fixed_double.le (fixed_double.round x) (fixed_double.round y) ≡ true
fixed-round_mono nan y h = cc
fixed-round_mono (micro a) nan h = cc
fixed-round_mono (micro a) (micro b) h = ground arith

fixed-hundredth_mono :
    (x y : Fixed)
    → fixed_double.le x y ≡ true
    → fixed_double.le
        (fixed_double.div x (fixed_double.lit 100 0))
        (fixed_double.div y (fixed_double.lit 100 0))
      ≡ true
fixed-hundredth_mono nan y h = cc
fixed-hundredth_mono (micro a) nan h = cc
fixed-hundredth_mono (micro a) (micro b) h = ground arith

fixed-le_trans :
    (x y z : Fixed)
    → fixed_double.le x y ≡ true
    → fixed_double.le y z ≡ true
    → fixed_double.le x z ≡ true
fixed-le_trans x y z h k = ground arith

product :
    (c a : ℕ) → fixed_double.mul (micro (pos c)) (micro (pos a)) ≡ micro (pos (c * a / 1_000_000))
product c a = ground arith

product_neg :
    (c a : ℕ)
    → fixed_double.mul (micro (pos c)) (micro (negsuc a)) ≡ micro (sub_ℕ 0 (c * suc a / 1_000_000))
product_neg c a = ground arith

leb_pos : (m n : ℕ) → m ≤ n → leb_ℤ (pos m) (pos n) ≡ true
leb_pos m n h = ground arith

leb_pos_back : (m n : ℕ) → leb_ℤ (pos m) (pos n) ≡ true → m ≤ n
leb_pos_back m n h = ground arith

leb_neg : (m n : ℕ) → n ≤ m → leb_ℤ (sub_ℕ 0 m) (sub_ℕ 0 n) ≡ true
leb_neg m n h = ground arith

leb_neg_back : (a b : ℕ) → leb_ℤ (negsuc a) (negsuc b) ≡ true → suc b ≤ suc a
leb_neg_back a b h = ground arith

leb_mixed : (m n : ℕ) → leb_ℤ (sub_ℕ 0 m) (pos n) ≡ true
leb_mixed m n = ground arith

shrunk_mono : (m n : ℕ) → m ≤ n → m / 1_000_000 ≤ n / 1_000_000
shrunk_mono m n h = omega arith

le_same :
    (x x' y y' : Fixed)
    → x ≡ x'
    → y ≡ y'
    → fixed_double.le x' y' ≡ true
    → fixed_double.le x y ≡ true
le_same x x' y y' e f h = rw (e, f) h

fixed-mul_mono :
    (z x y : Fixed)
    → fixed_double.le nought z ≡ true
    → fixed_double.le x y ≡ true
    → IsNumber (fixed_double.mul z x)
    → IsNumber (fixed_double.mul z y)
    → fixed_double.le (fixed_double.mul z x) (fixed_double.mul z y) ≡ true
fixed-mul_mono nan x y p h k l = cc
fixed-mul_mono (micro (negsuc c)) x y p h k l = absurd (not_below 0 c p)
fixed-mul_mono (micro (pos c)) nan y p h k l = cc
fixed-mul_mono (micro (pos c)) (micro a) nan p h k l = cc
fixed-mul_mono (micro (pos c)) (micro (pos a)) (micro (pos b)) p h k l =
    le_same _ _ _ _ (product c a) (product c b)
      (leb_pos _ _ (shrunk_mono _ _ (times_mono c a b (leb_pos_back a b h))))
fixed-mul_mono (micro (pos c)) (micro (negsuc a)) (micro (pos b)) p h k l =
    le_same _ _ _ _ (product_neg c a) (product c b) (leb_mixed _ _)
fixed-mul_mono (micro (pos c)) (micro (pos a)) (micro (negsuc b)) p h k l = absurd (not_below a b h)
fixed-mul_mono (micro (pos c)) (micro (negsuc a)) (micro (negsuc b)) p h k l =
    le_same _ _ _ _ (product_neg c a) (product_neg c b)
      (leb_neg _ _ (shrunk_mono _ _ (times_mono c (suc b) (suc a) (leb_neg_back a b h))))

fixed-mul_grows :
    (x z : Fixed)
    → fixed_double.le nought x ≡ true
    → fixed_double.le (fixed_double.lit 1 0) z ≡ true
    → IsNumber (fixed_double.mul x z)
    → fixed_double.le x (fixed_double.mul x z) ≡ true
fixed-mul_grows nan z h k l = cc
fixed-mul_grows (micro a) nan h k l = cc
fixed-mul_grows (micro (negsuc a)) (micro c) h k l = absurd (not_below 0 a h)
fixed-mul_grows (micro (pos a)) (micro (negsuc c)) h k l = absurd (not_below 1_000_000 c k)
fixed-mul_grows (micro (pos a)) (micro (pos c)) h k l =
    let grown = times_mono a 1_000_000 c (leb_pos_back 1_000_000 c k) in
    le_same (micro (pos a)) (micro (pos a)) _ _ refl (product a c)
      (leb_pos a (a * c / 1_000_000) (omega arith))

fixed_double-IsMonotone : IsMonotone Fixed
fixed_double-IsMonotone = record {
  of_int_mono = fixed-of_int_mono;
  add_mono = fixed-add_mono;
  mul_mono = fixed-mul_mono;
  hundred_mono = fixed-hundred_mono;
  round_mono = fixed-round_mono;
  hundredth_mono = fixed-hundredth_mono;
  mul_grows = fixed-mul_grows;
  le_trans = fixed-le_trans;
}

abbrev six_levels : LongGridConfig Fixed
six_levels = record {
  levels = pos 6;
  order_qty = usd 1;
  take_profit_ratio = fixed_double.lit 1 2;
  dynamic_enabled = true;
  recenter_threshold_ratio = fixed_double.lit 1 2;
  band_ratio = fixed_double.lit 1 1;
}

abbrev strategy : LongGridStrategy Fixed
unfolding new_strategy sanitize_config
strategy = new_strategy six_levels

abbrev value : Fixed → ℤ
value nan = pos 0
value (micro a) = a

is_number : (x : Fixed) → x ≡ micro (value x) → IsNumber x
is_number nan e = cc
is_number (micro a) e = leb_refl a

abbrev raw : ℕ → Fixed
unfolding strategy
raw i = raw_price (lower_price strategy (usd 100)) (price_step strategy (usd 100)) i

strategy-IsFinite :
    (i : ℕ)
    → IsFinite
        (lower_price strategy (usd 100))
        (price_step strategy (usd 100))
        (strategy.cfg.take_profit_ratio)
        i
unfolding strategy raw
strategy-IsFinite i =
    let sale =
      fixed_double.mul (raw i)
        (fixed_double.add (fixed_double.lit 1 0) strategy.cfg.take_profit_ratio) in
    record {
      offset =
          is_number (fixed_double.mul (price_step strategy (usd 100)) (fixed_double.of_int (pos i)))
            refl;
      price = is_number (raw i) refl;
      cents = is_number (fixed_double.mul (raw i) (fixed_double.lit 100 0)) refl;
      sale = is_number sale refl;
      sale_cents = is_number (fixed_double.mul sale (fixed_double.lit 100 0)) refl;
    }

rebuild_grid-prices_example :
    let levels = (rebuild_grid strategy (usd 100)).levels in
    IsAscending levels × All (λ lv. fixed_double.le lv.buy_price lv.sell_price ≡ true) levels
unfolding strategy
rebuild_grid-prices_example =
    rebuild_grid-prices fixed_double-IsMonotone strategy (usd 100) refl refl refl
      (λ i low. strategy-IsFinite i)
