-- ===== src/Core/Trading/Journal.antt =====
-- A `TradingCore` of core/trading_core.cpp beside the worker of its logger: the calls of the core and
-- the turns of the worker in any order, and what is in the log file in the end.
use frog_quant.Prelude.{◌≡◌, refl, ap, sym, ◌∙◌, List, [], ◌∷◌, ◌++◌, Text}
use frog_quant.Double.{Double, DoubleText}
use frog_quant.Logger.{LogEvent, LogQueue, try_log}
use frog_quant.Logger.Worker
use frog_quant.Logger.Worker.{System, Action, Phase, starts, logs, turns, stops, looping, finished}
use frog_quant.Core.Trading.{TradingCore}
use frog_quant.Core.Trading.History.{Event, handle}
use frog_quant.Core.Trading.Audit.{logged_by, log_all, handle-logged}

pub record Joint (F Q : Type 0) : Type 0 where
  pub core : TradingCore F Q
  pub phase : Phase
  pub file : Text

-- A call of the core, or an action of the logger: its start, a turn of its worker, its stop.
pub data Turn (F : Type 0) : Type 0 where
  calls : Event F → Turn F
  works : Action F → Turn F

module _ {F Q : Type 0} where
  abbrev pub system : Joint F Q → System Q
  system j = record { logger = j.core.logger; phase = j.phase; file = j.file }

module _ {F Q : Type 0} ⦃d : Double F⦄ (t : DoubleText F) (q : LogQueue F Q) where
  unfoldable pub step : Joint F Q → Turn F → Joint F Q
  unfolding handle Worker.step
  step j (calls e) = record j { core = handle ⦃q = q⦄ j.core e }
  step j (works a) =
      let s = Worker.step t q (system j) a in
      record { core = record (j.core) { logger = s.logger }; phase = s.phase; file = s.file }

  unfoldable pub run : Joint F Q → List (Turn F) → Joint F Q
  unfolding step
  run j [] = j
  run j (a ∷ rest) = run (step j a) rest

  abbrev pub logs_of : List (LogEvent F) → List (Action F)
  logs_of [] = []
  logs_of (ev ∷ rest) = logs ev ∷ logs_of rest

  -- The same as actions of the logger alone.
  unfoldable pub actions : Joint F Q → List (Turn F) → List (Action F)
  unfolding logged_by
  actions j [] = []
  actions j (calls e ∷ rest) =
      logs_of (logged_by ⦃q = q⦄ j.core e) ++ actions (step j (calls e)) rest
  actions j (works a ∷ rest) = a ∷ actions (step j (works a)) rest

  run-append :
      (s : System Q) (xs ys : List (Action F))
      → Worker.run t q s (xs ++ ys) ≡ Worker.run t q (Worker.run t q s xs) ys
  unfolding Worker.run
  run-append s [] ys = refl
  run-append s (x ∷ xs) ys = run-append (Worker.step t q s x) xs ys

  run-logs :
      (s : System Q) (es : List (LogEvent F))
      → Worker.run t q s (logs_of es) ≡ record s { logger = log_all ⦃q = q⦄ s.logger es }
  unfolding Worker.run Worker.step
  run-logs s [] = refl
  run-logs s (ev ∷ es) = run-logs (record s { logger = (try_log ⦃q = q⦄ s.logger ev).0 }) es

  step-system :
      (j : Joint F Q) (e : Event F)
      → system (step j (calls e)) ≡ Worker.run t q (system j) (logs_of (logged_by ⦃q = q⦄ j.core e))
  unfolding step
  step-system j e =
      ap (λ l. record (system j) { logger = l }) (handle-logged ⦃q = q⦄ j.core e)
      ∙ sym (run-logs (system j) (logged_by ⦃q = q⦄ j.core e))

  -- The core is a producer like any other: however its calls and the turns of the worker alternate,
  -- the queue, the counter, the worker and the file are those of a logger that is given, in the same
  -- order, the event of each tick, order and cancellation.
  pub run-actions :
      (j : Joint F Q) (ts : List (Turn F))
      → system (run j ts) ≡ Worker.run t q (system j) (actions j ts)
  unfolding run actions Worker.run
  run-actions j [] = refl
  run-actions j (calls e ∷ rest) =
      run-actions (step j (calls e)) rest
      ∙ ap (λ s. Worker.run t q s (actions (step j (calls e)) rest)) (step-system j e)
      ∙ sym (
          run-append (system j) (logs_of (logged_by ⦃q = q⦄ j.core e))
            (actions (step j (calls e)) rest))
  run-actions j (works a ∷ rest) = run-actions (step j (works a)) rest
