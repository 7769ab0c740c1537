-- ===== src/Tests/LoggerTests.antt =====
-- The logger on a queue with room for two events.
use frog_quant.Prelude.{ℕ, ◌≡◌, refl, true, List, [], ◌∷◌, ◌++◌, bytes, some}
use frog_quant.Double.Fixed.{Fixed, fixed_text}
use frog_quant.Logger.{LogEvent, info, dropped_count}
use frog_quant.Logger.Json.{escape_json}
use frog_quant.Logger.Escaping.{is_loggable, unescape, unescape-escape_json}
use frog_quant.Logger.Worker.{System, Action, absent, starts, logs, stops, step, run}
use frog_quant.Logger.Delivery.{accepted}
use frog_quant.Tests.Inputs.{Queue, small_queue, usd, idle_logger}

abbrev event : ℕ → LogEvent Fixed
event n = record {
  ts_ms = n;
  level = info;
  module_name = bytes "core";
  event = bytes "tick";
  message = bytes "last \"price\"";
  value1 = usd n;
  value2 = usd 0;
}

abbrev fresh : System Queue
fresh = record { logger = idle_logger; phase = absent; file = [] }

-- Three events for a queue of two, then a stop.
abbrev burst : List (Action Fixed)
burst = starts true ∷ logs (event 1) ∷ logs (event 2) ∷ logs (event 3) ∷ stops ∷ []

third_dropped :
    (accepted fixed_text small_queue fresh burst ≡ event 1 ∷ event 2 ∷ [])
    × (dropped_count (run fixed_text small_queue fresh burst).logger ≡ 1)
unfolding accepted run step dropped_count
third_dropped = (refl, refl)

unescape-escape_json_example :
    unescape (escape_json (bytes "a\"b\\") ++ b'"' ∷ bytes ",") ≡ some (bytes "a\"b\\", bytes ",")
unfolding is_loggable
unescape-escape_json_example = unescape-escape_json (bytes "a\"b\\") (bytes ",")
