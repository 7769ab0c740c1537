-- ===== src/App/RunGuard.antt =====
-- app/run_guard.cpp: `run_until_stop`, which sleeps 200 ms at a time until it is told to stop or its
-- time is over.
pub mod Termination
use frog_quant.Prelude.{
  ℕ, zero, suc, ◌+◌, ◌-◌, ◌*◌, ◌≤◌, ◌<◌, ◌≡◌, refl, ℤ, pos, negsuc, Bool, true, false, ◌&&◌, not,
  Option, none, some, ltb, arith, if◌then◌else◌, Bool-cases, inl, inr,
}

-- What the loop reads in its rounds: the flag, and the steady clock in milliseconds.
pub record Readings : Type 0 where
  pub stop_flag : ℕ → Bool
  pub start : ℕ
  pub clock : ℕ → ℕ

-- `run_seconds > 0` sets a deadline.
unfoldable pub deadline : Readings → ℤ → Option ℕ
deadline r (pos (suc n)) = some (r.start + suc n * 1000)
deadline r _ = none

-- The condition of the loop, in its round `i`.
unfoldable pub keeps_waiting : Readings → Option ℕ → ℕ → Bool
keeps_waiting r (some end) i = not (r.stop_flag i) && ltb (r.clock i) end
keeps_waiting r none i = not (r.stop_flag i)

-- The round in which the loop ends; `none` if the fuel runs out before that.
unfoldable pub wait : ℕ → Readings → Option ℕ → ℕ → Option ℕ
unfolding keeps_waiting
wait zero r end i = none
wait (suc fuel) r end i = elim (keeps_waiting r end i) [
  | true ↦ wait fuel r end (suc i)
  | false ↦ some i
]

unfoldable pub run_until_stop : ℕ → Readings → ℤ → Option ℕ
unfolding deadline wait
run_until_stop fuel r run_seconds = wait fuel r (deadline r run_seconds) 0
