-- ===== src/Bench/Percentiles.antt =====
-- The percentiles of bench/benchmark_trading_core.cpp.
use frog_quant.Prelude.{
  ℕ, suc, zero, ◌+◌, ◌-◌, ◌%◌, ◌^◌, ◌≤◌, ◌<◌, ◌≡◌, refl, ap, ◌∙◌, pos, true, some, List, [], ◌∷◌,
  length, arith,
}
use frog_quant.Double.{Double, nought}
use frog_quant.Logger.{LogQueue}
use frog_quant.Core.Trading.{TradingCore, submit_manual_order}
use frog_quant.Bench.{Reading, measure, bench_request, get_elem?, back, pct, report}

-- What `std::sort` promises of its result, as far as it is used here.
pub record IsSorting (sort : List ℕ → List ℕ) : Type 0 where
  pub length-sort : (xs : List ℕ) → length (sort xs) ≡ length xs
  pub sort-ascending :
      (xs : List ℕ) (i j a b : ℕ)
      → i ≤ j
      → get_elem? (sort xs) i ≡ some a
      → get_elem? (sort xs) j ≡ some b
      → a ≤ b

-- Rounding to a double, and to an integer, keeps the order; up to 2^53 integers are exact.
pub record IsScaling (F : Type 0) ⦃d : Double F⦄ : Type 0 where
  pub percent_mono : (a b : ℕ) → a ≤ b → d.le (d.lit a 2) (d.lit b 2) ≡ true
  pub percent_nonneg : (a : ℕ) → d.le nought (d.lit a 2) ≡ true
  pub scale_mono :
      (x y : F) (n : ℕ)
      → n < 2 ^ 53
      → d.le nought x ≡ true
      → d.le x y ≡ true
      → d.to_u64 (d.mul x (d.of_int (pos n))) ≤ d.to_u64 (d.mul y (d.of_int (pos n)))
  pub scale_one : (n : ℕ) → n < 2 ^ 53 → d.to_u64 (d.mul (d.lit 100 2) (d.of_int (pos n))) ≡ n

module _ {F Q : Type 0} ⦃d : Double F⦄ ⦃q : LogQueue F Q⦄ where
  measure-length :
      (core : TradingCore F Q) (rs : List Reading) → length (measure core rs).1 ≡ length rs
  unfolding measure
  measure-length core [] = refl
  measure-length core (r ∷ rest) =
      ap suc (measure-length (submit_manual_order r.created r.now core bench_request).0 rest)

get-in_range : (xs : List ℕ) (i : ℕ) → i < length xs → (a : ℕ) × (get_elem? xs i ≡ some a)
get-in_range [] i h = absurd (omega arith)
get-in_range (x ∷ xs) zero h = (x, refl)
get-in_range (x ∷ xs) (suc i) h = get-in_range xs i (omega arith)

back-get : (xs : List ℕ) (n : ℕ) → length xs ≡ suc n → back xs ≡ get_elem? xs n
back-get [] n h = absurd (omega arith)
back-get (x ∷ []) zero h = refl
back-get (x ∷ []) (suc n) h = absurd (omega arith)
back-get (x ∷ y ∷ xs) zero h = absurd (omega arith)
back-get (x ∷ y ∷ xs) (suc n) h = back-get (y ∷ xs) n (omega arith)

module _ {F : Type 0} ⦃d : Double F⦄ (laws : IsScaling F) where
  abbrev index : ℕ → ℕ → ℕ
  index p n = d.to_u64 (d.mul (d.lit p 2) (d.of_int (pos n)))

  index_mono : (p p' n : ℕ) → p ≤ p' → n < 2 ^ 53 → index p n ≤ index p' n
  index_mono p p' n h small =
      laws.scale_mono (d.lit p 2) (d.lit p' 2) n small (laws.percent_nonneg p)
        (laws.percent_mono p p' h)

  index-bound : (p n : ℕ) → p ≤ 100 → n < 2 ^ 53 → index p n ≤ n
  index-bound p n h small = omega (arith, index_mono p 100 n h small, laws.scale_one n small)

  pct-get :
      (ns : List ℕ) (p n : ℕ)
      → length ns ≡ suc n
      → n < 2 ^ 53
      → pct ns (d.lit p 2) ≡ get_elem? ns (index p n)
  unfolding pct
  pct-get ns p n h small =
      let whole : (length ns + 2 ^ 64 - 1) % 2 ^ 64 ≡ n = omega arith in
      ap (λ k. get_elem? ns (d.to_u64 (d.mul (d.lit p 2) (d.of_int (pos k))))) whole

  pct-some :
      (ns : List ℕ) (p n : ℕ)
      → p ≤ 100
      → length ns ≡ suc n
      → n < 2 ^ 53
      → (a : ℕ) × (pct ns (d.lit p 2) ≡ some a) × (get_elem? ns (index p n) ≡ some a)
  pct-some ns p n low h small =
      let bound = index-bound p n low small in
      let (a, e) = get-in_range ns (index p n) (omega arith) in (a, pct-get ns p n h small ∙ e, e)

  pct_mono :
      (sort : List ℕ → List ℕ) (xs : List ℕ) (p p' n a b : ℕ)
      → IsSorting sort
      → p ≤ p'
      → n < 2 ^ 53
      → get_elem? (sort xs) (index p n) ≡ some a
      → get_elem? (sort xs) (index p' n) ≡ some b
      → a ≤ b
  pct_mono sort xs p p' n a b s h small e f =
      s.sort-ascending xs (index p n) (index p' n) a b (index_mono p p' n h small) e f

module _ {F Q : Type 0} ⦃d : Double F⦄ ⦃q : LogQueue F Q⦄ where
  -- If there was an iteration, and at most 2^53 of them: each percentile reads inside the sorted times,
  -- and they come out in their order, none above the largest. `std::sort` is taken to sort, and
  -- doubles to keep the order when they round and to be exact up to 2^53.
  pub percentiles-ordered :
      (sort : List ℕ → List ℕ) (t0 t1 : ℕ) (core : TradingCore F Q) (readings : List Reading)
      (n : ℕ)
      → IsSorting sort
      → IsScaling F
      → length readings ≡ suc n
      → n < 2 ^ 53
      → let r = report sort t0 t1 core readings in
        (a : ℕ) × (b : ℕ) × (c : ℕ) × (m : ℕ) × (r.p50 ≡ some a)
        × (r.p95 ≡ some b)
        × (r.p99 ≡ some c)
        × (r.max ≡ some m)
        × (a ≤ b)
        × (b ≤ c)
        × (c ≤ m)
  unfolding report
  percentiles-ordered sort t0 t1 core readings n s laws h small =
      let xs = (measure core readings).1 in
      let size : length (sort xs) ≡ suc n = s.length-sort xs ∙ measure-length core readings ∙ h in
      let (a, p50, at50) = pct-some laws (sort xs) 50 n (omega arith) size small in
      let (b, p95, at95) = pct-some laws (sort xs) 95 n (omega arith) size small in
      let (c, p99, at99) = pct-some laws (sort xs) 99 n (omega arith) size small in
      let (m, last) = get-in_range (sort xs) n (omega arith) in
      let low = index-bound laws 99 n (omega arith) small in
      (
        a,
        b,
        c,
        m,
        p50,
        p95,
        p99,
        back-get (sort xs) n size ∙ last,
        pct_mono laws sort xs 50 95 n a b s (omega arith) small at50 at95,
        pct_mono laws sort xs 95 99 n b c s (omega arith) small at95 at99,
        s.sort-ascending xs (index laws 99 n) n c m low at99 last,
      )
