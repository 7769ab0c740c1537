-- ===== src/App/RunGuard/Termination.antt =====
-- The loop of `run_until_stop` ends.
use frog_quant.Prelude.{
  ℕ, zero, suc, ◌+◌, ◌*◌, ◌≤◌, ◌<◌, ◌≡◌, ◌⊎◌, pos, true, false, ◌&&◌, ◌||◌, not, Option, some, ltb,
  arith, ◌==◌, Bool-cases, inl, inr,
}
use frog_quant.App.RunGuard.{Readings, deadline, keeps_waiting, wait, run_until_stop}

-- `wait` ends in the first round whose test fails, if the fuel reaches it.
record IsFirst (r : Readings) (end : Option ℕ) (i k : ℕ) : Type 0 where
  from : i ≤ k
  over : keeps_waiting r end k ≡ false
  before : (j : ℕ) → i ≤ j → j < k → keeps_waiting r end j ≡ true

wait-ends :
    (fuel : ℕ) (r : Readings) (end : Option ℕ) (i m : ℕ)
    → i ≤ m
    → m < i + fuel
    → keeps_waiting r end m ≡ false
    → (k : ℕ) × (wait fuel r end i ≡ some k) × (k ≤ m) × IsFirst r end i k
unfolding wait
wait-ends zero r end i m h lt e = absurd (omega arith)
wait-ends (suc fuel) r end i m h lt e = elim (Bool-cases (keeps_waiting r end i)) [
  | inl on ↦
      let below : i < m = ground arith in
      let (k, found, near, first) = wait-ends fuel r end (suc i) m below (omega arith) e in
      (
        k,
        ground (arith, found),
        near,
        record {
          from = omega (arith, first.from);
          over = first.over;
          before = λ j p q. elim (Bool-cases (i == j)) [
            | inl here ↦ ground (arith, on)
            | inr later ↦ first.before j (ground arith) q
          ];
        },
      )
  | inr off ↦ (
    i,
    ground arith,
    h,
    record { from = omega arith; over = off; before = λ j p q. absurd (omega arith) },
  )
]

-- The clock has gone on by 200 ms or more in every round.
clock_grows :
    (r : Readings)
    → r.start ≤ r.clock 0
    → ((i : ℕ) → r.clock i + 200 ≤ r.clock (suc i))
    → (i : ℕ) → r.start + 200 * i ≤ r.clock i
clock_grows r h step zero = omega arith
clock_grows r h step (suc i) = omega (arith, step i, clock_grows r h step i)

-- Where a run of `n + 1` seconds is asked for, the clock does not go back before the first round
-- and each round takes the 200 ms that it sleeps or more, the loop ends after at most `5 (n + 1)`
-- rounds, in the first round in which the flag is up or the time is over.
pub run_until_stop-ends :
    (r : Readings) (n : ℕ)
    → r.start ≤ r.clock 0
    → ((i : ℕ) → r.clock i + 200 ≤ r.clock (suc i))
    → (k : ℕ) × (run_until_stop (5 * suc n + 1) r (pos (suc n)) ≡ some k)
      × (k ≤ 5 * suc n)
      × ((r.stop_flag k ≡ true) ⊎ (r.start + suc n * 1000 ≤ r.clock k))
      × ((j : ℕ)
          → (ltb j k && (r.stop_flag j || not (ltb (r.clock j) (r.start + suc n * 1000)))) ≡ false)
unfolding run_until_stop deadline keeps_waiting
run_until_stop-ends r n h step =
    let end = some (r.start + suc n * 1000) in
    let over : keeps_waiting r end (5 * suc n) ≡ false =
      ground (arith, clock_grows r h step (5 * suc n)) in
    let (k, found, near, first) =
      wait-ends (5 * suc n + 1) r end 0 (5 * suc n) (omega arith) (omega arith) over in
    (
      k,
      found,
      near,
      elim (Bool-cases (r.stop_flag k)) [
        | inl up ↦ inl up
        | inr down ↦ inr (ground (arith, first.over))
      ],
      λ j. ground (arith, first.before j),
    )
