-- ===== src/Tests/BenchTests.antt =====
-- The benchmark at a few iterations, with an insertion sort in place of `std::sort`.
use frog_quant.Prelude.{
  ℕ, suc, zero, ◌+◌, ◌*◌, ◌/◌, ◌^◌, ◌≤◌, ◌<◌, ◌≡◌, refl, ap, ◌∙◌, inl, inr, true, pos, Option, none,
  some, List, [], ◌∷◌, if◌then◌else◌, leb, length, All, All-mono, arith, Bool-cases,
}
use frog_quant.Double.{nought}
use frog_quant.Double.Fixed.{Fixed, fixed_double, nan, micro}
use frog_quant.Prelude.{negsuc}
use frog_quant.Core.Orders.{
  OrderRecord, OrderStatus, RejectReason, no_reason, rejected, accepted, max_position_ratio,
}
use frog_quant.Core.Trading.{get_order}
use frog_quant.Bench.{Reading, bench_core, measure, get_elem?, report}
use frog_quant.Bench.Percentiles.{IsSorting, IsScaling, percentiles-ordered}
use frog_quant.Tests.Inputs.{small_queue, idle_logger}

insert : ℕ → List ℕ → List ℕ
insert x [] = x ∷ []
insert x (y ∷ ys) = if leb x y then x ∷ y ∷ ys else y ∷ insert x ys

sort : List ℕ → List ℕ
unfolding insert
sort [] = []
sort (x ∷ xs) = insert x (sort xs)

length-insert : (x : ℕ) (ys : List ℕ) → length (insert x ys) ≡ suc (length ys)
unfolding insert
length-insert x [] = refl
length-insert x (y ∷ ys) = ground (arith, length-insert x ys)

length-sort : (xs : List ℕ) → length (sort xs) ≡ length xs
unfolding sort
length-sort [] = refl
length-sort (x ∷ xs) = length-insert x (sort xs) ∙ ap suc (length-sort xs)

abbrev IsAscending : List ℕ → Type 0
IsAscending [] = Unit
IsAscending (x ∷ xs) = All (λ y. x ≤ y) xs × IsAscending xs

All-insert : (z x : ℕ) (ys : List ℕ) → z ≤ x → All (λ y. z ≤ y) ys → All (λ y. z ≤ y) (insert x ys)
unfolding insert
All-insert z x [] h k = (h, tt)
All-insert z x (y ∷ ys) h k = elim (Bool-cases (leb x y)) [
  | inl e ↦ rw e (h, k)
  | inr e ↦ rw e (k.0, All-insert z x ys h k.1)
]

insert-IsAscending : (x : ℕ) (ys : List ℕ) → IsAscending ys → IsAscending (insert x ys)
unfolding insert
insert-IsAscending x [] h = (tt, tt)
insert-IsAscending x (y ∷ ys) h = elim (Bool-cases (leb x y)) [
  | inl e ↦
      (let low : x ≤ y = ground arith in
        rw e ((low, All-mono (λ z. y ≤ z) (λ z. x ≤ z) ys (λ z k. omega arith) h.0), h))
  | inr e ↦
      (let low : y ≤ x = ground arith in
        rw e (All-insert y x ys low h.0, insert-IsAscending x ys h.1))
]

sort-IsAscending : (xs : List ℕ) → IsAscending (sort xs)
unfolding sort
sort-IsAscending [] = tt
sort-IsAscending (x ∷ xs) = insert-IsAscending x (sort xs) (sort-IsAscending xs)

All-get : (z : ℕ) (xs : List ℕ) (i a : ℕ) → All (λ y. z ≤ y) xs → get_elem? xs i ≡ some a → z ≤ a
All-get z [] i a h e = cc
All-get z (x ∷ xs) zero a h e = ground (arith, h.0)
All-get z (x ∷ xs) (suc i) a h e = All-get z xs i a h.1 e

ascending-get :
    (xs : List ℕ) (i j a b : ℕ)
    → IsAscending xs
    → i ≤ j
    → get_elem? xs i ≡ some a
    → get_elem? xs j ≡ some b
    → a ≤ b
ascending-get [] i j a b h low e f = cc
ascending-get (x ∷ xs) zero zero a b h low e f = ground arith
ascending-get (x ∷ xs) zero (suc j) a b h low e f =
    (let first : x ≡ a = ground arith in omega (arith, All-get x xs j b h.0 f))
ascending-get (x ∷ xs) (suc i) zero a b h low e f = absurd (omega arith)
ascending-get (x ∷ xs) (suc i) (suc j) a b h low e f =
    ascending-get xs i j a b h.1 (omega arith) e f

sort-IsSorting : IsSorting sort
sort-IsSorting = record {
  length-sort = length-sort;
  sort-ascending = λ xs i j a b. ascending-get (sort xs) i j a b (sort-IsAscending xs);
}

mul_mono : (a b n : ℕ) → a ≤ b → a * n ≤ b * n
mul_mono a b zero h = omega arith
mul_mono a b (suc n) h = omega (arith, mul_mono a b n h)

scaled :
    (m n : ℕ)
    → fixed_double.to_u64 (fixed_double.mul (micro (pos m)) (fixed_double.of_int (pos n)))
      ≡ m * (n * 1_000_000) / 1_000_000 / 1_000_000
scaled m n = ground arith

shown_mono : (a b : ℕ) → a ≤ b → a / 1_000_000 / 1_000_000 ≤ b / 1_000_000 / 1_000_000
shown_mono a b h = omega arith

percent_mono :
    (a b : ℕ) → a ≤ b → fixed_double.le (fixed_double.lit a 2) (fixed_double.lit b 2) ≡ true
percent_mono a b h = ground arith

percent_nonneg : (a : ℕ) → fixed_double.le (fixed_double.lit 0 0) (fixed_double.lit a 2) ≡ true
percent_nonneg a = ground arith

not_below : (a b : ℕ) → fixed_double.le (micro (pos a)) (micro (negsuc b)) ≡ true → ⊥
not_below a b h = ground arith

scale_mono :
    (x y : Fixed) (n : ℕ)
    → n < 2 ^ 53
    → fixed_double.le nought x ≡ true
    → fixed_double.le x y ≡ true
    → fixed_double.to_u64 (fixed_double.mul x (fixed_double.of_int (pos n)))
      ≤ fixed_double.to_u64 (fixed_double.mul y (fixed_double.of_int (pos n)))
scale_mono (micro (pos a)) (micro (pos b)) n small h k =
    rw (scaled a n, scaled b n) (shown_mono _ _ (mul_mono a b (n * 1_000_000) (ground arith)))
scale_mono nan y n small h k = cc
scale_mono (micro (pos a)) nan n small h k = cc
scale_mono (micro (pos a)) (micro (negsuc b)) n small h k = absurd (not_below a b k)
scale_mono (micro (negsuc a)) y n small h k = absurd (not_below 0 a h)

scale_one :
    (n : ℕ)
    → n < 2 ^ 53
    → fixed_double.to_u64 (fixed_double.mul (fixed_double.lit 100 2) (fixed_double.of_int (pos n)))
      ≡ n
scale_one n h = ground arith

fixed_double-IsScaling : IsScaling Fixed
fixed_double-IsScaling = record {
  percent_mono = percent_mono;
  percent_nonneg = percent_nonneg;
  scale_mono = scale_mono;
  scale_one = scale_one;
}

abbrev reading : ℕ → Reading
reading ns = record { started = 100; created = 1; now = 2; ended = 100 + ns }

abbrev readings : List Reading
readings = reading 7 ∷ reading 3 ∷ reading 5 ∷ []

percentiles-ordered_example :
    let r = report {F = Fixed} sort 0 1000 (bench_core {F = Fixed} idle_logger 1) readings in
    (a : ℕ) × (b : ℕ) × (c : ℕ) × (m : ℕ) × (r.p50 ≡ some a)
    × (r.p95 ≡ some b)
    × (r.p99 ≡ some c)
    × (r.max ≡ some m)
    × (a ≤ b)
    × (b ≤ c)
    × (c ≤ m)
percentiles-ordered_example =
    percentiles-ordered sort 0 1000 (bench_core idle_logger 1) readings 2 sort-IsSorting
      fixed_double-IsScaling refl (omega arith)

three_times :
    let r = report {F = Fixed} sort 0 1000 (bench_core {F = Fixed} idle_logger 1) readings in
    (r.p50 ≡ some 5) × (r.max ≡ some 7) × (r.dropped_logs ≡ 2)
unfolding report bench_core sort insert
three_times = (refl, refl, refl)

-- With an equity of 1000 the position has room for sixteen orders of 60: the next one is rejected.
abbrev fires : ℕ → List Reading
fires zero = []
fires (suc n) = reading 1 ∷ fires n

abbrev outcome : Option (OrderRecord Fixed) → Option (OrderStatus × RejectReason)
outcome none = none
outcome (some r) = some (r.status, r.reject_reason)

room_for_sixteen :
    let core = (measure (bench_core {F = Fixed} idle_logger 1) (fires 17)).0 in
    (outcome (get_order core 16) ≡ some (accepted, no_reason))
    × (outcome (get_order core 17) ≡ some (rejected, max_position_ratio))
unfolding measure bench_core get_order
room_for_sixteen = (refl, refl)
