-- ===== src/Tests/ProgramTests.antt =====
-- The threads of the program, its locks and the journal of a core, at concrete schedules.
use frog_quant.Prelude.{◌≡◌, ◌≢◌, refl, true, false, none, some, List, [], ◌∷◌, ◌++◌, bytes, arith}
use frog_quant.Double.Fixed.{Fixed, fixed_double, fixed_text}
use frog_quant.Control.{Request}
use frog_quant.Control.Lifecycle.{connection, nobody}
use frog_quant.App.Main
use frog_quant.App.Main.{initial_context}
use frog_quant.App.Program.{
  Program, Action, main_moves, rest_tests, rest_handles, server_tests, fetches, accepts, receives,
  joined, launch, main_step, step, run,
}
use frog_quant.Market.Joins.{Opening}
use frog_quant.App.Program.Shutdown.{joined-stays_joined}
use frog_quant.App.Program.Rounds.{closing}
use frog_quant.App.Program.Joins.{shutdown-ends}
use frog_quant.App.Program.Silence.{IsHeld, silent_client-holds}
use frog_quant.App.Locks.{
  Thread, web_socket, polling, server, grid_mu, touch, Call, tick, get_runtime, post_grid,
  post_order, launch_locks, run_locks, turn, all_ops, lock_ops, tick_ops, push_events,
}
use frog_quant.App.Locks.Progress.{turns-exclusive, calls-end}
use frog_quant.Logger.Worker
use frog_quant.Logger.Worker.{starts, turns, stops, absent}
use frog_quant.Logger.Delivery.{lines}
use frog_quant.Core.Trading.{
  get_order, new_trading_core, cancel_order, submit_manual_order, on_tick,
}
use frog_quant.Logger.Json.{batch}
use frog_quant.Core.Trading.History.{ticks, submits, cancels}
use frog_quant.Core.Trading.History
use frog_quant.Core.Trading.History.{orders_in}
use frog_quant.Core.Trading.Ledger.{Numbered, position_of}
use frog_quant.App.Main.Calls.{run-calls}
use frog_quant.App.Main.Calls
use frog_quant.App.Program.Orders.{core_calls, threads-IsReconciled}
use frog_quant.Core.Trading.Journal
use frog_quant.Core.Trading.Journal.{Joint, Turn, calls, works, system, actions, run-actions}
use frog_quant.Core.Trading.Complete.{events_in, stopped-file}
use frog_quant.Tests.Inputs.{
  Queue, small_queue, small_queue-IsFifo, idle_logger, test_limits, test_tick, small_buy,
}
use frog_quant.Tests.AppTests.{start, empty_disk, initial, clock, order_request}

abbrev order : Request
order = record { method = bytes "POST"; target = bytes "/trade/manual/order"; body = order_request }

-- The service polls a price, and the server takes a connection.
abbrev morning : List (Action Fixed)
morning =
    rest_tests
    ∷ fetches clock (some test_tick)
    ∷ server_tests
    ∷ rest_handles
    ∷ accepts connection
    ∷ rest_handles
    ∷ rest_handles
    ∷ []

abbrev started : Program Fixed Queue
unfolding launch
started = launch initial

-- The handshake of the WebSocket fails.
abbrev opening : Opening
opening = record { resolves = true; links = true; secures = true; upgrades = false }

shutdown-ends_example :
    (run
      (launch initial)
      (morning ++ closing opening clock 5 none none nobody (some (clock, order)))).stage
    ≡ joined
unfolding run step main_step launch
shutdown-ends_example =
    shutdown-ends initial morning opening clock 5 none none nobody (some (clock, order)) refl

abbrev day : List (Action Fixed)
day = morning ++ closing opening clock 5 none none nobody (some (clock, order))

joined-stays_joined_example :
    run
      (run (launch initial) day)
      (receives (some (clock, order)) ∷ fetches clock (some test_tick) ∷ [])
    ≡ run (launch initial) day
joined-stays_joined_example =
    joined-stays_joined initial day
      (receives (some (clock, order)) ∷ fetches clock (some test_tick) ∷ []) shutdown-ends_example

silent_client-holds_example :
    IsHeld (run (run started morning) (main_moves ∷ rest_tests ∷ server_tests ∷ []))
unfolding run step main_step started
silent_client-holds_example =
    silent_client-holds (run started morning) (main_moves ∷ rest_tests ∷ server_tests ∷ [])
      (tt, (tt, (tt, tt))) (record { phase = refl; stage = refl })

-- A tick with an intent on each of the market's threads, and three requests.
abbrev busy : Thread → List Call
busy web_socket = tick true 1 ∷ []
busy polling = tick true 1 ∷ []
busy server = get_runtime ∷ post_grid true ∷ post_order true ∷ []

-- All three ask for the grid, and the first one has it.
web_socket-apart : web_socket ≢ polling
web_socket-apart e = cc

turns-exclusive_example :
    (run_locks (launch_locks busy) (web_socket ∷ polling ∷ server ∷ [])).ops polling
    ≢ touch grid_mu ∷ []
unfolding run_locks turn launch_locks all_ops lock_ops tick_ops push_events
turns-exclusive_example =
    turns-exclusive busy (web_socket ∷ polling ∷ server ∷ []) grid_mu web_socket polling _ []
      web_socket-apart refl

calls-end_example :
    (rest : List Thread) × ((i : Thread)
      → (run_locks (run_locks (launch_locks busy) (web_socket ∷ server ∷ [])) rest).ops i ≡ [])
calls-end_example = calls-end busy (web_socket ∷ server ∷ [])

abbrev new_joint : Joint Fixed Queue
unfolding new_trading_core
new_joint = record { core = new_trading_core test_limits idle_logger; phase = absent; file = [] }

abbrev session : List (Turn Fixed)
session =
    works (starts true)
    ∷ calls (ticks 1 test_tick)
    ∷ calls (submits 2 3 small_buy)
    ∷ works (turns 9)
    ∷ calls (cancels 4 1)
    ∷ works stops
    ∷ []

run-actions_example :
    system (Journal.run fixed_text small_queue new_joint session)
    ≡ Worker.run fixed_text small_queue
        (system new_joint)
        (actions fixed_text small_queue new_joint session)
run-actions_example = run-actions fixed_text small_queue new_joint session

stopped-file_example :
    (Journal.step fixed_text small_queue
      (Journal.run fixed_text small_queue new_joint session)
      (works (turns 5))).file
    ≡ lines fixed_text small_queue
        (events_in fixed_text small_queue (actions fixed_text small_queue new_joint session))
unfolding Journal.run Journal.step actions small_queue-IsFifo new_joint cancel_order
    submit_manual_order on_tick batch
stopped-file_example =
    stopped-file fixed_text small_queue small_queue-IsFifo new_joint session 5 refl refl
      (omega arith) refl refl (omega arith) refl

run-calls_example :
    (Main.run
      (Main.request clock (bytes "POST") (bytes "/trade/manual/order") order_request ∷ [])
      initial).core
    ≡ History.run initial.core (
        Calls.calls
          (Main.request clock (bytes "POST") (bytes "/trade/manual/order") order_request ∷ [])
          initial)
run-calls_example =
    run-calls (Main.request clock (bytes "POST") (bytes "/trade/manual/order") order_request ∷ [])
      initial

-- A price is polled, and an order comes in.
abbrev noon : List (Action Fixed)
noon = morning ++ receives (some (clock, order)) ∷ []

threads-IsReconciled_example :
    let ctx = initial_context start 900 empty_disk idle_logger in
    let c = (run (launch ctx) noon).ctx.core in
    (c.seq ≡ orders_in (core_calls (launch ctx) noon))
    × Numbered c
    × (c.account.position_notional_usd
        ≡ position_of (get_order c) (orders_in (core_calls (launch ctx) noon)))
threads-IsReconciled_example =
    threads-IsReconciled start 900 empty_disk idle_logger noon (omega arith)
