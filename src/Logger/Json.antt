-- ===== src/Logger/Json.antt =====
-- The JSON lines that the worker of logger/async_jsonl_logger.cpp writes, and its loop.
use frog_quant.Prelude.{
  ℕ, zero, suc, none, some, [], ◌∷◌, ◌++◌, Text, bytes, if◌then◌else◌, ◌==◌, show_nat,
}
use frog_quant.Double.{DoubleText}
use frog_quant.Logger.{LogLevel, debug, info, warn, error, LogEvent, LogQueue}

unfoldable pub level_to_str : LogLevel → Text
level_to_str debug = bytes "DEBUG"
level_to_str info = bytes "INFO"
level_to_str warn = bytes "WARN"
level_to_str error = bytes "ERROR"

unfoldable pub escape_char : ℕ → Text
escape_char c =
    if c == b'"'
    then b'\\' ∷ b'"' ∷ []
    else if c == b'\\'
    then b'\\' ∷ b'\\' ∷ []
    else if c == 10
    then b'\\' ∷ b'n' ∷ []
    else c ∷ []

unfoldable pub escape_json : Text → Text
unfolding escape_char
escape_json [] = []
escape_json (c ∷ s) = escape_char c ++ escape_json s

-- `field("name", value)`: a quoted name and a quoted, escaped text
quoted : Text → Text
quoted s = b'"' ∷ s ++ b'"' ∷ []

module _ {F : Type 0} ⦃t : DoubleText F⦄ where
  -- One event as a line of the file.
  unfoldable pub event_line : LogEvent F → Text
  unfolding quoted
  event_line ev =
      bytes "{"
      ++ (bytes "\"ts_ms\":" ++ show_nat ev.ts_ms ++ bytes ",")
      ++ (bytes "\"level\":" ++ quoted (level_to_str ev.level) ++ bytes ",")
      ++ (bytes "\"module\":" ++ quoted (escape_json ev.module_name) ++ bytes ",")
      ++ (bytes "\"event\":" ++ quoted (escape_json ev.event) ++ bytes ",")
      ++ (bytes "\"message\":" ++ quoted (escape_json ev.message) ++ bytes ",")
      ++ (bytes "\"value1\":" ++ t.show ev.value1 ++ bytes ",")
      ++ (bytes "\"value2\":" ++ t.show ev.value2)
      ++ bytes "}\n"

module _ {F Q : Type 0} (t : DoubleText F) (q : LogQueue F Q) where
  -- `while (processed < 256 && q_.pop(ev))`, with `room` events to go: how many were popped, what
  -- is left of the queue, and the file.
  unfoldable pub batch : ℕ → Q → Text → ℕ × Q × Text
  batch zero s out = (0, s, out)
  batch (suc room) s out = elim (q.pop s) [
    | none ↦ (0, s, out)
    | some (ev, rest) ↦
        let (n, s', out') = batch room rest (out ++ event_line ⦃t = t⦄ ev) in (suc n, s', out')
  ]
