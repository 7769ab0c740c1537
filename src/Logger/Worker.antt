-- ===== src/Logger/Worker.antt =====
-- The worker thread of logger/async_jsonl_logger.cpp (`run`) beside the producers that log, as a
-- system that takes one action after another.
use frog_quant.Prelude.{ℕ, Bool, true, false, List, [], ◌∷◌, Text, if◌then◌else◌, ltb}
use frog_quant.Double.{DoubleText}
use frog_quant.Logger.{LogEvent, LogQueue, Logger, start, stop, try_log}
use frog_quant.Logger.Json.{batch}

pub data Phase : Type 0 where
  absent looping finished : Phase

-- The logger, where its worker stands, and all that was written to the file.
pub record System (Q : Type 0) : Type 0 where
  pub logger : Logger Q
  pub phase : Phase
  pub file : Text

-- `starts` says whether the file could be opened; `turns` gives the pops of a drain up to the end
-- of the turn.
pub data Action (F : Type 0) : Type 0 where
  starts : Bool → Action F
  logs : LogEvent F → Action F
  turns : ℕ → Action F
  stops : Action F

module _ {F Q : Type 0} (t : DoubleText F) (q : LogQueue F Q) where
  -- A worker that could not open its file has left at once.
  after_start : System Q → Bool → Logger Q × Bool → System Q
  after_start s opened (l, false) = record s { logger = l }
  after_start s opened (l, true) = record s {
    logger = l;
    phase = if opened then looping else finished;
  }

  -- While the logger runs, up to 256 events are written in a turn. Once it is stopped the rest is
  -- written, and the worker leaves when a pop finds nothing.
  unfoldable pub turn : ℕ → Phase → System Q → System Q
  turn fuel absent s = s
  turn fuel finished s = s
  turn fuel looping s =
      if s.logger.running
      then (let (n, rest, out) = batch t q 256 s.logger.queue s.file in
          record s { logger = record (s.logger) { queue = rest }; file = out })
      else (let (n, rest, out) = batch t q fuel s.logger.queue s.file in
          record s {
            logger = record (s.logger) { queue = rest };
            file = out;
            phase = if ltb n fuel then finished else looping;
          })

  unfoldable pub step : System Q → Action F → System Q
  unfolding after_start turn start stop try_log
  step s (starts opened) = after_start s opened (start s.logger)
  step s (logs ev) = record s { logger = (try_log ⦃q = q⦄ s.logger ev).0 }
  step s (turns fuel) = turn fuel s.phase s
  step s stops = record s { logger = (stop s.logger).0 }

  unfoldable pub run : System Q → List (Action F) → System Q
  run s [] = s
  run s (a ∷ rest) = run (step s a) rest
