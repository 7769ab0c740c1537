-- ===== src/Tests/AppTests.antt =====
-- The application's theorems at a start with the default configuration.
use frog_quant.Prelude.{
  ltb, drop, min, ◌≡◌, ◌≤◌, max, refl, true, false, none, some, List, [], ◌∷◌, ◌++◌, Text, bytes,
  show_nat, text_eq, arith, ◌==◌, length, if◌then◌else◌,
}
use frog_quant.Double.{nought}
use frog_quant.Double.Fixed.{Fixed, fixed_double, fixed_text, read_digits, read, print}
use frog_quant.Core.Orders.{is_none, market, limit}
use frog_quant.Core.Trading.{get_order, submit_manual_order, new_trading_core}
use frog_quant.Core.Trading.Outcome.{next_id, order_for, verdict}
use frog_quant.Grid.{sanitize_config, new_strategy}
use frog_quant.App.Config.{default_config}
use frog_quant.App.Files.{Disk, read_credentials_file}
use frog_quant.App.RuntimeState.{load_runtime_state, save_runtime_state}
use frog_quant.App.RuntimeState.RoundTrip.{IsShown, load-save_runtime_state}
use frog_quant.App.Context.{ControlApiContext, Clock}
use frog_quant.Control.{Response}
use frog_quant.App.Handlers.{bad_request, success}
use frog_quant.App.Updates.{patched_grid, post_grid}
use frog_quant.App.Trade.{post_order, read_order}
use frog_quant.App.Router.{handle, route, obey}
use frog_quant.App.Router.Refusals.{IsUntouched, handle-refused}
use frog_quant.App.Router.Trades.{answer_text, status_text, reason_text, post_order_lem}
use frog_quant.App.Bootstrap.{
  BootstrapResult, Environment, ready, bootstrap, checked, configured, with_environment,
  resolved_keys, env_or_empty, env_is_true, file_lines,
}
use frog_quant.App.Bootstrap.Precedence.{file_config}
use frog_quant.App.Config.{is_yes, load_config, parse_simple_yaml, load_entries}
use frog_quant.App.Files.{path_writable_probe}
use frog_quant.App.Main.{Input, request, tick, run, initial_context}
use frog_quant.App.Main.Caches.{run-caches_bounded}
use frog_quant.Tests.Inputs.{Queue, small_queue, idle_logger, test_limits, test_tick}

abbrev pub empty_disk : Disk
empty_disk = record { content = λ path. none; is_writable = λ path. true }

abbrev pub start : BootstrapResult Fixed
unfolding default_config
start = record {
  cfg = default_config;
  risk_cfg = test_limits;
  exec_cfg = record {
    api_key = [];
    secret_key = [];
    base_url = bytes "http://test";
    dry_run = true;
  };
}

abbrev pub clock : Clock
clock = record { first = 1000; second = 1001; third = 1002 }

abbrev pub initial : ControlApiContext Fixed Queue
unfolding initial_context
initial = initial_context start 900 empty_disk idle_logger

-- A request for about 6 dollars.
abbrev pub order_request : Text
order_request = bytes "{\"side\":\"BUY\",\"type\":\"LIMIT\",\"qty\":100,\"price\":60000000000}"

abbrev inputs : List (Input Fixed)
inputs =
    tick clock test_tick
    ∷ request clock (bytes "POST") (bytes "/trade/manual/order") order_request
    ∷ []

notional-IsShown : IsShown fixed_text test_limits.max_single_order_notional_usd
unfolding read print read_digits show_nat
notional-IsShown = record { reads = refl; no_quote = ground arith; no_delimiter = ground arith }

position-IsShown : IsShown fixed_text test_limits.max_position_ratio
unfolding read print read_digits show_nat
position-IsShown = record { reads = refl; no_quote = ground arith; no_delimiter = ground arith }

loss-IsShown : IsShown fixed_text test_limits.daily_loss_stop_ratio
unfolding read print read_digits show_nat
loss-IsShown = record { reads = refl; no_quote = ground arith; no_delimiter = ground arith }

load-save_runtime_state_example :
    load_runtime_state
      (save_runtime_state empty_disk (bytes "state") true test_limits).0
      (bytes "state")
      (false, initial.risk_cfg)
    ≡ ((true, test_limits), true)
load-save_runtime_state_example =
    load-save_runtime_state fixed_text empty_disk (bytes "state") true test_limits
      (false, initial.risk_cfg) refl notional-IsShown position-IsShown loss-IsShown

run-caches_bounded_example :
    (length (run inputs initial).events ≤ max 1 start.cfg.max_events_cache)
    × (length (run inputs initial).orders ≤ max 100 start.cfg.max_orders_cache)
unfolding initial_context
run-caches_bounded_example = run-caches_bounded start 900 empty_disk idle_logger inputs

-- An order without a quantity.
refused_body : Text
refused_body = bytes "{\"side\":\"BUY\"}"

refusal : Response
unfolding bad_request
refusal = bad_request (bytes "{\"ok\":false,\"code\":\"E_BAD_QTY\",\"error\":\"qty must be > 0\"}")

refused_answer :
    (handle clock (bytes "POST") (bytes "/trade/manual/order") refused_body initial).1
    ≡ some refusal
unfolding handle route obey post_order read_order refused_body refusal
refused_answer = refl

handle-refused_example :
    IsUntouched initial
      (handle clock (bytes "POST") (bytes "/trade/manual/order") refused_body initial).0
unfolding refusal
handle-refused_example =
    handle-refused clock (bytes "POST") (bytes "/trade/manual/order") refused_body initial refusal
      refused_answer refl

order_has_qty : fixed_double.le (read_order initial.cfg.symbol order_request).qty nought ≡ false
unfolding read_order initial read read_digits
order_has_qty = refl

-- No order is on record yet.
id_free : get_order initial.core (next_id initial.core) ≡ none
unfolding initial initial_context get_order new_trading_core
id_free = refl

post_order_lem_example :
    let req = read_order {F = Fixed} initial.cfg.symbol order_request in
    let id = next_id initial.core in
    let order = order_for clock.first initial.core req in
    let rr = verdict initial.core order in
    let listed =
      initial.orders
      ++ record {
        internal_id = id;
        status = status_text rr;
        reject_reason = reason_text rr;
        ts_ms = clock.third;
      }
        ∷ [] in
    let (ctx', resp) = post_order clock order_request initial in
    (resp.status ≡ 200)
    × (resp.body ≡ answer_text id rr)
    × (ctx'.core ≡ (submit_manual_order clock.first clock.second initial.core req).0)
    × (ctx'.orders ≡ (
        if ltb initial.max_orders (length listed)
        then drop (min initial.order_trim_batch (length listed)) listed
        else listed))
    × (ctx'.sent ≡ (
        if is_none rr
        then initial.sent
          ++ record {
            symbol = req.symbol;
            side = req.side;
            type = req.type;
            qty = req.qty;
            price = elim req.type [ limit ↦ some req.limit_price | market ↦ none ];
            client_order_id = bytes "qt_" ++ show_nat id;
          }
            ∷ []
        else initial.sent))
    × (ctx'.grid ≡ initial.grid)
    × (ctx'.risk_cfg ≡ initial.risk_cfg)
post_order_lem_example = post_order_lem clock order_request initial order_has_qty id_free

grid_body : Text
grid_body = bytes "{\"levels\":3000000,\"order_qty\":5000000}"

grid_accepted : ((post_grid grid_body initial).1.status == 200) ≡ true
unfolding post_grid grid_body initial initial_context start default_config patched_grid read
    read_digits new_strategy sanitize_config success bad_request
grid_accepted = refl

-- Live trading, with every other setting of the environment `k`.
abbrev pub live : Environment
unfolding text_eq
live key = if text_eq key (bytes "FQ_EXEC_DRY_RUN") then some (bytes "false") else some (bytes "k")

abbrev pub live_result : BootstrapResult Fixed
unfolding configured with_environment
live_result =
    configured (with_environment live (file_config (bytes "k") empty_disk)) (bytes "k", bytes "k")

pub live_ready : bootstrap live empty_disk ≡ ready live_result
unfolding bootstrap checked configured with_environment resolved_keys live live_result
    path_writable_probe env_or_empty env_is_true is_yes read_credentials_file file_lines load_config
    parse_simple_yaml load_entries
live_ready = refl
