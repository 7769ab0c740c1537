-- ===== src/Logger/Delivery.antt =====
-- What becomes of the events that producers hand to the logger.
use mathlib.Core.List.{append_assoc, append-nil}
use frog_quant.Prelude.{
  ℕ, zero, suc, ◌+◌, ◌≤◌, ◌<◌, ◌≡◌, refl, sym, ap, ◌∙◌, inl, inr, false, List, [], ◌∷◌, ◌++◌, Text,
  if◌then◌else◌, length, length-append, arith, Option-cases, Bool-cases, lt→ltb, ◌^◌,
}
use frog_quant.Double.{DoubleText}
use frog_quant.Logger.{LogEvent, LogQueue, IsFifo, start, stop, try_log, dropped_count}
use frog_quant.Logger.Json.{batch, event_line}
use frog_quant.Logger.Worker.{
  Phase, absent, looping, finished, System, Action, starts, logs, turns, stops, turn, step, run,
}

module _ {F Q : Type 0} (t : DoubleText F) (q : LogQueue F Q) where
  -- The lines of a list of events.
  abbrev pub lines : List (LogEvent F) → Text
  lines [] = []
  lines (e ∷ es) = event_line ⦃t = t⦄ e ++ lines es

  lines-append : (xs ys : List (LogEvent F)) → lines (xs ++ ys) ≡ lines xs ++ lines ys
  lines-append [] ys = refl
  lines-append (x ∷ xs) ys =
      ap (λ r. event_line ⦃t = t⦄ x ++ r) (lines-append xs ys)
      ∙ sym (append_assoc (event_line ⦃t = t⦄ x) (lines xs) (lines ys))

  -- The events that `try_log` reported as taken over a sequence of actions, oldest first.
  unfoldable pub accepted_by : System Q → Action F → List (LogEvent F)
  accepted_by s (logs ev) = if (try_log ⦃q = q⦄ s.logger ev).1 then ev ∷ [] else []
  accepted_by s _ = []

  unfoldable pub accepted : System Q → List (Action F) → List (LogEvent F)
  unfolding accepted_by
  accepted s [] = []
  accepted s (a ∷ rest) = accepted_by s a ++ accepted (step t q s a) rest

  module _ (fifo : IsFifo q) where
    open fifo use {contents, push-contents, pop-none, pop-some}

    batch_lem :
        (room : ℕ) (s : Q) (out : Text)
        → let r = batch t q room s out in
          (r.2 ++ lines (contents r.1) ≡ out ++ lines (contents s))
          × (length (contents s) ≡ r.0 + length (contents r.1))
          × (r.0 ≤ room)
          × (r.0 < room → contents r.1 ≡ [])
    unfolding batch
    batch_lem zero s out = (refl, omega arith, omega arith, λ h. elim h [ ])
    batch_lem (suc room) s out = elim (Option-cases (q.pop s)) [
      | inl e ↦ rw (e, batch) (refl, omega arith, omega arith, λ _. pop-none s e)
      | inr ((ev, rest), e) ↦
          let (file, count, low, empty) = batch_lem room rest (out ++ event_line ⦃t = t⦄ ev) in
          let listed : contents s ≡ ev ∷ contents rest = pop-some s e in
          rw (e, batch)
            (
              rw listed (file ∙ append_assoc out (event_line ⦃t = t⦄ ev) (lines (contents rest))),
              omega (arith, ap length listed),
              omega arith,
              λ h. empty (omega arith),
            )
    ]

    -- Everything taken so far: what is in the file, and the lines of what is queued.
    abbrev pub delivered : System Q → Text
    delivered s = s.file ++ lines (contents s.logger.queue)

    turn-delivered :
        (fuel : ℕ) (p : Phase) (s : System Q) → delivered (turn t q fuel p s) ≡ delivered s
    unfolding turn
    turn-delivered fuel absent s = refl
    turn-delivered fuel finished s = refl
    turn-delivered fuel looping s = elim (Bool-cases s.logger.running) [
      | inl on ↦ rw (on, turn) ((batch_lem 256 s.logger.queue s.file).0)
      | inr off ↦ rw (off, turn) ((batch_lem fuel s.logger.queue s.file).0)
    ]

    step-delivered :
        (s : System Q) (a : Action F)
        → delivered (step t q s a) ≡ delivered s ++ lines (accepted_by s a)
    unfolding step accepted_by
    step-delivered s (starts opened) = elim (Bool-cases s.logger.running) [
      | inl on ↦ rw (on, start) (sym (append-nil (delivered s)))
      | inr off ↦ rw (off, start) (sym (append-nil (delivered s)))
    ]
    step-delivered s (logs ev) = elim (Option-cases (q.push s.logger.queue ev)) [
      | inl full ↦ rw (full, try_log) (sym (append-nil (delivered s)))
      | inr (rest, taken) ↦
          rw (taken, try_log)
            (ap (λ u. s.file ++ u)
                (ap lines (push-contents s.logger.queue ev taken)
                  ∙ lines-append (contents s.logger.queue) (ev ∷ []))
              ∙ sym (append_assoc s.file (lines (contents s.logger.queue)) (lines (ev ∷ []))))
    ]
    step-delivered s (turns fuel) = turn-delivered fuel s.phase s ∙ sym (append-nil (delivered s))
    step-delivered s stops = elim (Bool-cases s.logger.running) [
      | inl on ↦ rw (on, stop) (sym (append-nil (delivered s)))
      | inr off ↦ rw (off, stop) (sym (append-nil (delivered s)))
    ]

    -- Whatever the interleaving of producers, worker, start and stop: the file and the queue hold
    -- together exactly what they held before and the events that `try_log` took, each once and in
    -- the order in which they were taken.
    pub run-delivered :
        (s : System Q) (actions : List (Action F))
        → delivered (run t q s actions) ≡ delivered s ++ lines (accepted s actions)
    unfolding run accepted
    run-delivered s [] = sym (append-nil (delivered s))
    run-delivered s (a ∷ rest) =
        run-delivered (step t q s a) rest
        ∙ ap (λ u. u ++ lines (accepted (step t q s a) rest)) (step-delivered s a)
        ∙ append_assoc (delivered s) (lines (accepted_by s a))
            (lines (accepted (step t q s a) rest))
        ∙ ap (λ u. delivered s ++ u)
            (sym (lines-append (accepted_by s a) (accepted (step t q s a) rest)))

    drain :
        (fuel : ℕ) (s : System Q)
        → s.logger.running ≡ false
        → length (contents s.logger.queue) < fuel
        → let v = turn t q fuel looping s in (contents v.logger.queue ≡ []) × (v.phase ≡ finished)
    unfolding turn
    drain fuel s off enough =
        let (file, count, low, empty) = batch_lem fuel s.logger.queue s.file in
        let short : (batch t q fuel s.logger.queue s.file).0 < fuel = omega arith in
        rw (off, turn) (empty short, rw (lt→ltb _ _ short))

    step-turns :
        (fuel : ℕ) (s : System Q)
        → s.phase ≡ looping
        → step t q s (turns fuel) ≡ turn t q fuel looping s
    unfolding step
    step-turns fuel s live = ap (λ p. turn t q fuel p s) live

    -- Once the logger is stopped, a turn of the worker with more pops than events are queued writes
    -- every event that was ever taken to the file, empties the queue, and ends the worker.
    pub stopped-turn_complete :
        (s : System Q) (actions : List (Action F)) (fuel : ℕ)
        → let u = run t q s actions in
          delivered s ≡ []
          → u.logger.running ≡ false
          → u.phase ≡ looping
          → length (contents u.logger.queue) < fuel
          → let v = step t q u (turns fuel) in
            (v.file ≡ lines (accepted s actions))
            × (contents v.logger.queue ≡ [])
            × (v.phase ≡ finished)
    stopped-turn_complete s actions fuel new off live enough =
        let u : System Q = run t q s actions in
        let (empty, ended) = drain fuel u off enough in
        let v : System Q = turn t q fuel looping u in
        rw (step-turns fuel u live) (
          sym (append-nil v.file)
              ∙ ap (λ c. v.file ++ lines c) (sym empty)
              ∙ turn-delivered fuel looping u
              ∙ run-delivered s actions
              ∙ ap (λ d. d ++ lines (accepted s actions)) new,
          empty,
          ended,
        )

  -- How many events a sequence of actions logs.
  abbrev pub logged : List (Action F) → ℕ
  logged [] = 0
  logged (logs ev ∷ rest) = suc (logged rest)
  logged (_ ∷ rest) = logged rest

  turn-dropped :
      (fuel : ℕ) (p : Phase) (s : System Q) → (turn t q fuel p s).logger.dropped ≡ s.logger.dropped
  unfolding turn
  turn-dropped fuel absent s = refl
  turn-dropped fuel finished s = refl
  turn-dropped fuel looping s = ground arith

  step-dropped :
      (s : System Q) (a : Action F)
      → s.logger.dropped + logged (a ∷ []) < 2 ^ 64
      → (step t q s a).logger.dropped + length (accepted_by s a)
        ≡ s.logger.dropped + logged (a ∷ [])
  unfolding step accepted_by
  step-dropped s (starts opened) h = ground arith
  step-dropped s (logs ev) h = elim (Option-cases (q.push s.logger.queue ev)) [
    | inl full ↦ rw (full, try_log) (omega arith)
    | inr (rest, taken) ↦ rw (taken, try_log) (omega arith)
  ]
  step-dropped s (turns fuel) h = omega (arith, turn-dropped fuel s.phase s)
  step-dropped s stops h = ground arith

  logged-cons :
      (a : Action F) (rest : List (Action F)) → logged (a ∷ rest) ≡ logged (a ∷ []) + logged rest
  logged-cons (logs ev) rest = omega arith
  logged-cons (starts opened) rest = omega arith
  logged-cons (turns fuel) rest = omega arith
  logged-cons stops rest = omega arith

  -- As long as the 64-bit counter does not wrap, it grows by exactly the number of events that
  -- were logged and not taken.
  pub run-dropped :
      (s : System Q) (actions : List (Action F))
      → s.logger.dropped + logged actions < 2 ^ 64
      → dropped_count (run t q s actions).logger + length (accepted s actions)
        ≡ s.logger.dropped + logged actions
  unfolding run accepted dropped_count
  run-dropped s [] h = omega arith
  run-dropped s (a ∷ rest) h =
      let whole = logged-cons a rest in
      let first = step-dropped s a (omega arith) in
      omega (
        arith,
        run-dropped (step t q s a) rest (omega arith),
        length-append (accepted_by s a) (accepted (step t q s a) rest),
      )
