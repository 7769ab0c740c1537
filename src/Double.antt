-- ===== src/Double.antt =====
-- `double`: the operations of the language that the program uses, and the IEEE 754 laws of its
-- comparisons that some theorems assume. NaN is the value that is not `<=` itself.
pub mod Fixed
use frog_quant.Prelude.{ℕ, ℤ, Bool, true, not, ◌≡◌, ◌⊎◌, Option, Text}

pub record Double (F : Type 0) : Type 0 where
  -- `lit m e` is the decimal literal m / 10^e.
  pub lit : ℕ → ℕ → F
  -- `static_cast<double>(n)` of an integer
  pub of_int : ℤ → F
  -- `static_cast<int>(x)` and `static_cast<uint64_t>(x)`
  pub to_int : F → ℤ
  pub to_u64 : F → ℕ
  pub add : F → F → F
  pub sub : F → F → F
  pub mul : F → F → F
  pub div : F → F → F
  pub fabs : F → F
  pub round : F → F
  -- `x < y` and `x <= y`; `x > y` is `y < x`, and `x >= y` is `y <= x`.
  pub lt : F → F → Bool
  pub le : F → F → Bool

-- `operator<<` with the default format and with `std::fixed` at a precision, `std::to_string`, and `std::stod`, where `none` stands for
-- the exception.
pub record DoubleText (F : Type 0) : Type 0 where
  pub show : F → Text
  pub show_fixed : (precision : ℕ) → F → Text
  pub to_string : F → Text
  pub stod : Text → Option F

-- 0.0
abbrev pub nought : {F : Type 0} ⦃d : Double F⦄ → F
nought ⦃d⦄ = d.lit 0 0

abbrev pub IsNumber : {F : Type 0} ⦃d : Double F⦄ → F → Type 0
IsNumber ⦃d⦄ x = d.le x x ≡ true

-- The comparisons of IEEE 754: an order that is total on numbers, and false at NaN.
pub record IsOrdered (F : Type 0) ⦃d : Double F⦄ : Type 0 where
  pub le-number : (x y : F) → d.le x y ≡ true → IsNumber x × IsNumber y
  pub le_of_lt : (x y : F) → d.lt x y ≡ true → d.le x y ≡ true
  pub lt_trans : (x y z : F) → d.lt x y ≡ true → d.lt y z ≡ true → d.lt x z ≡ true
  pub lt-eq-not-le : (x y : F) → IsNumber x → IsNumber y → d.lt x y ≡ not (d.le y x)
  pub le_trans : (x y z : F) → d.le x y ≡ true → d.le y z ≡ true → d.le x z ≡ true
  pub le_total : (x y : F) → IsNumber x → IsNumber y → (d.le x y ≡ true) ⊎ (d.le y x ≡ true)

-- Products of positive numbers are not negative.
pub record HasSigns (F : Type 0) ⦃d : Double F⦄ : Type 0 where
  pub fabs-mul :
      (x y : F) → d.lt nought x ≡ true → d.lt nought y ≡ true → d.fabs (d.mul x y) ≡ d.mul x y
