-- ===== src/Logger.antt =====
-- logger/log_event.hpp and logger/async_jsonl_logger.{hpp,cpp}: log events, the producers' side of
-- the asynchronous logger and its worker. The lock-free queue is Boost's: its operations are the
-- interface `LogQueue`, and what the worker relies on is `IsFifo`.
pub mod Json
pub mod Escaping
pub mod Worker
pub mod Delivery
use frog_quant.Prelude.{
  ℕ, zero, suc, ◌+◌, ◌%◌, ◌^◌, ◌≡◌, Bool, true, false, Option, none, some, List, [], ◌∷◌, ◌++◌,
  Text, take, if◌then◌else◌, ◌==◌,
}

pub data LogLevel : Type 0 where
  debug info warn error : LogLevel

-- A fixed array of characters is the text in front of its first NUL.
pub record LogEvent (F : Type 0) : Type 0 where
  pub ts_ms : ℕ
  pub level : LogLevel
  pub module_name : Text
  pub event : Text
  pub message : Text
  pub value1 : F
  pub value2 : F

-- What `strncpy` copies of a text into a zeroed array of `size + 1` characters.
unfoldable pub copy_field : ℕ → Text → Text
copy_field zero s = []
copy_field (suc size) [] = []
copy_field (suc size) (c ∷ s) = if c == 0 then [] else c ∷ copy_field size s

-- `boost::lockfree::queue<LogEvent>`: a push fails if the queue takes no more.
pub record LogQueue (F Q : Type 0) : Type 0 where
  pub push : Q → LogEvent F → Option Q
  pub pop : Q → Option (LogEvent F × Q)

-- First in, first out: what `contents` lists, oldest first.
pub record IsFifo {F Q : Type 0} (q : LogQueue F Q) : Type 0 where
  pub contents : Q → List (LogEvent F)
  pub push-contents :
      (s : Q) (e : LogEvent F) {t : Q} → q.push s e ≡ some t → contents t ≡ contents s ++ e ∷ []
  pub pop-none : (s : Q) → q.pop s ≡ none → contents s ≡ []
  pub pop-some :
      (s : Q) {e : LogEvent F} {t : Q} → q.pop s ≡ some (e, t) → contents s ≡ e ∷ contents t

-- `AsyncJsonlLogger`; `running` tells that the worker thread was started and not stopped.
pub record Logger (Q : Type 0) : Type 0 where
  pub file_path : Text
  pub queue : Q
  pub running : Bool
  pub dropped : ℕ

-- The constructor, over a new queue of the wanted capacity.
unfoldable pub new_logger : {Q : Type 0} → Text → Q → Logger Q
new_logger path q = record { file_path = path; queue = q; running = false; dropped = 0 }

-- Whether a thread is started, or joined, is the second result.
unfoldable pub start : {Q : Type 0} → Logger Q → Logger Q × Bool
start l = if l.running then (l, false) else (record l { running = true }, true)

unfoldable pub stop : {Q : Type 0} → Logger Q → Logger Q × Bool
stop l = if l.running then (record l { running = false }, true) else (l, false)

module _ {F Q : Type 0} ⦃q : LogQueue F Q⦄ where
  unfoldable pub try_log : Logger Q → LogEvent F → Logger Q × Bool
  try_log l ev = elim (q.push l.queue ev) [
    | none ↦ (record l { dropped = (l.dropped + 1) % 2 ^ 64 }, false)
    | some rest ↦ (record l { queue = rest }, true)
  ]

unfoldable pub dropped_count : {Q : Type 0} → Logger Q → ℕ
dropped_count l = l.dropped
