-- ===== src/Core/Trading/Complete.antt =====
-- That the log of core/trading_core.cpp is complete once the logger has been stopped.
use frog_quant.Prelude.{
  ℕ, suc, ◌<◌, ◌≤◌, ◌^◌, ◌≡◌, refl, ap, sym, subst, ◌∙◌, Bool, true, false, List, [], ◌∷◌, ◌++◌,
  if◌then◌else◌, length, arith,
}
use frog_quant.Double.{Double, DoubleText}
use frog_quant.Logger.{LogEvent, LogQueue, IsFifo, try_log, dropped_count}
use frog_quant.Logger.Worker
use frog_quant.Logger.Worker.{System, Action, Phase, starts, logs, turns, stops, looping, finished}
use frog_quant.Logger.Delivery.{
  lines, accepted, accepted_by, delivered, logged, run-dropped, stopped-turn_complete,
}
use frog_quant.Core.Trading.Journal.{Joint, Turn, works, system, step, run, actions, run-actions}

module _ {F Q : Type 0} (t : DoubleText F) (q : LogQueue F Q) where
  -- The events that a sequence of actions logs.
  abbrev pub events_in : List (Action F) → List (LogEvent F)
  events_in [] = []
  events_in (logs ev ∷ rest) = ev ∷ events_in rest
  events_in (_ ∷ rest) = events_in rest

  accepted-fewer :
      (s : System Q) (acts : List (Action F)) → length (accepted t q s acts) ≤ logged t q acts
  unfolding accepted accepted_by
  accepted-fewer s [] = omega arith
  accepted-fewer s (starts opened ∷ rest) = accepted-fewer (Worker.step t q s (starts opened)) rest
  accepted-fewer s (logs ev ∷ rest) =
      ground (arith, accepted-fewer (Worker.step t q s (logs ev)) rest)
  accepted-fewer s (turns fuel ∷ rest) = accepted-fewer (Worker.step t q s (turns fuel)) rest
  accepted-fewer s (stops ∷ rest) = accepted-fewer (Worker.step t q s stops) rest

  taken :
      (b : Bool) (ev : LogEvent F) (xs ys : List (LogEvent F)) (n : ℕ)
      → length ((if b then ev ∷ [] else []) ++ xs) ≡ suc n
      → length xs ≤ n
      → (length xs ≡ n → xs ≡ ys)
      → (if b then ev ∷ [] else []) ++ xs ≡ ev ∷ ys
  taken true ev xs ys n h low rest = ap (λ l. ev ∷ l) (rest (omega arith))
  taken false ev xs ys n h low rest = absurd (omega arith)

  accepted-all :
      (s : System Q) (acts : List (Action F))
      → length (accepted t q s acts) ≡ logged t q acts
      → accepted t q s acts ≡ events_in acts
  unfolding accepted accepted_by
  accepted-all s [] h = refl
  accepted-all s (starts opened ∷ rest) h = accepted-all (Worker.step t q s (starts opened)) rest h
  accepted-all s (logs ev ∷ rest) h =
      let s' = Worker.step t q s (logs ev) in
      taken (try_log ⦃q = q⦄ s.logger ev).1 ev (accepted t q s' rest) (events_in rest)
        (logged t q rest) h (accepted-fewer s' rest) (accepted-all s' rest)
  accepted-all s (turns fuel ∷ rest) h = accepted-all (Worker.step t q s (turns fuel)) rest h
  accepted-all s (stops ∷ rest) h = accepted-all (Worker.step t q s stops) rest h

module _ {F Q : Type 0} ⦃d : Double F⦄ (t : DoubleText F) (q : LogQueue F Q) where
  module _ (fifo : IsFifo q) where
    -- A core and a logger that start with nothing logged: once the logger is stopped and its worker
    -- has had a last turn with more pops than events are queued, then, if the counter of dropped
    -- events stands at 0, the file has one line for each tick, order and cancellation, in the order
    -- of the calls. (Fewer than 2^64 events were logged.)
    pub stopped-file :
        (j : Joint F Q) (ts : List (Turn F)) (fuel : ℕ)
        → delivered t q fifo (system j) ≡ []
        → j.core.logger.dropped ≡ 0
        → logged t q (actions t q j ts) < 2 ^ 64
        → (run t q j ts).core.logger.running ≡ false
        → (run t q j ts).phase ≡ looping
        → length (fifo.contents (run t q j ts).core.logger.queue) < fuel
        → (run t q j ts).core.logger.dropped ≡ 0
        → (step t q (run t q j ts) (works (turns fuel))).file
          ≡ lines t q (events_in t q (actions t q j ts))
    unfolding step dropped_count
    stopped-file j ts fuel new zero few off live enough none_dropped =
        let e = run-actions t q j ts in
        let u = Worker.run t q (system j) (actions t q j ts) in
        let whole =
          stopped-turn_complete t q fifo (system j) (actions t q j ts) fuel new
            (ap (λ s. s.logger.running) (sym e) ∙ off) (ap (λ s. s.phase) (sym e) ∙ live)
            (subst (λ s. length (fifo.contents s.logger.queue) < fuel) e enough) in
        let gone : u.logger.dropped ≡ 0 = ap (λ s. s.logger.dropped) (sym e) ∙ none_dropped in
        let count = run-dropped t q (system j) (actions t q j ts) (omega (arith, few, zero)) in
        ap (λ s. (Worker.step t q s (turns fuel)).file) e
        ∙ whole.0
        ∙ ap (lines t q)
            (accepted-all t q (system j) (actions t q j ts) (omega (arith, count, gone)))
