-- ===== src/Tests/CoreTests.antt =====
-- The trading core on concrete orders.
use frog_quant.Core.Orders.{is_buy}
use frog_quant.Prelude.{
  ◌&&◌, ℕ, ◌≡◌, pos, foldl, Text, bytes, refl, false, Option, none, some, List, [], ◌∷◌,
  if◌then◌else◌, ◌==◌, arith,
}
use frog_quant.Strings.Numbers.{stoi}
use frog_quant.Core.FlatConfig.{load_app_config, grid_levels_key}
use frog_quant.Core.FlatConfig.Keys.{field, read, values}
use frog_quant.Core.FlatConfig.Settings.{field-load_app_config}
use frog_quant.Double.Fixed.{Fixed, fixed_double, fixed_text, fixed_double-HasSigns}
use frog_quant.Core.Orders.{
  OrderRecord, OrderStatus, RejectReason, rejected, cancelled, no_reason, max_single_order_notional,
  price_unavailable, is_none,
}
use frog_quant.Core.Oms.{get, submit, empty}
use frog_quant.Core.Oms.Lifecycle.{Evolves, calls, accepts, cancels, rejects, calls-Evolves}
use frog_quant.Core.Risk.{RiskEngine}
use frog_quant.Core.Trading.{
  TradingCore, new_trading_core, on_tick, submit_manual_order, cancel_order, get_order, risk_config,
}
use frog_quant.Core.Trading.Outcome.{next_id, order_for, verdict, decided, submit_manual_order_lem}
use frog_quant.Core.Trading.History
use frog_quant.Core.Trading.History.{Event, orders_in, run, handle}
use frog_quant.Core.Trading.Decisions.{SettledAt, new-run-Settled}
use frog_quant.Core.Trading.Ledger.{Numbered, position_of, new-run-IsReconciled}
use frog_quant.Core.Trading.Exposure.{allowed, run-position_limited}
use frog_quant.Tests.Inputs.{
  Queue, small_queue, usd, idle_logger, test_limits, test_tick, small_buy, big_buy,
}

abbrev Core : Type 0
Core = TradingCore Fixed Queue

abbrev fresh_core : Core
fresh_core = new_trading_core test_limits idle_logger

-- A tick, a small order, one that is too big, and the cancellation of the first.
abbrev day : List (Event Fixed)
day =
    History.ticks 100 test_tick
    ∷ History.submits 101 102 small_buy
    ∷ History.submits 103 104 big_buy
    ∷ History.cancels 105 1
    ∷ []

abbrev status_of : Option (OrderRecord Fixed) → Option (OrderStatus × RejectReason)
status_of none = none
status_of (some r) = some (r.status, r.reject_reason)

day_statuses :
    (status_of (get_order (run fresh_core day) 1) ≡ some (cancelled, no_reason))
    × (status_of (get_order (run fresh_core day) 2) ≡ some (rejected, max_single_order_notional))
    × ((run fresh_core day).account.position_notional_usd ≡ usd 6)
unfolding run handle new_trading_core submit_manual_order cancel_order get_order on_tick
day_statuses = (refl, refl, refl)

submit_manual_order_lem_example :
    let c = fresh_core in
    let order = order_for 101 c small_buy in
    let rr = verdict c order in
    let (c', id) = submit_manual_order 101 102 c small_buy in
    (id ≡ next_id c)
    × (c'.seq ≡ id)
    × ((k : ℕ)
        → get_order c' k ≡ (if next_id c == k then some (decided order rr) else get_order c k))
    × (c'.account ≡ (
        if is_none rr && is_buy order.side
        then record c.account {
          position_notional_usd =
              fixed_double.add c.account.position_notional_usd
                (fixed_double.mul order.qty order.ref_price);
        }
        else c.account))
    × (c'.last_price ≡ c.last_price)
    × (risk_config c' ≡ risk_config c)
unfolding new_trading_core get_order
submit_manual_order_lem_example = submit_manual_order_lem 101 102 fresh_core small_buy refl

new-run-IsReconciled_example :
    let c = run fresh_core day in
    (c.seq ≡ 2) × Numbered c × (c.account.position_notional_usd ≡ position_of (get_order c) 2)
new-run-IsReconciled_example = new-run-IsReconciled test_limits idle_logger day (omega arith)

new-run-Settled_example : SettledAt 2 (get_order (run fresh_core day) 2)
new-run-Settled_example = new-run-Settled test_limits idle_logger day 2

run-position_limited_example :
    let c = run fresh_core day in
    fixed_double.lt (allowed c) c.account.position_notional_usd ≡ false
unfolding new_trading_core risk_config
run-position_limited_example =
    run-position_limited fixed_double-HasSigns test_limits idle_logger day refl refl
      (refl, (refl, (refl, (tt, tt))))

abbrev stored : OrderRecord Fixed
stored = record (order_for 101 fresh_core small_buy) { order_id = 7 }

calls-Evolves_example :
    (s : OrderRecord Fixed) × (get
        (calls (submit empty stored).0 (accepts 7 ∷ rejects 7 price_unavailable ∷ cancels 7 ∷ []))
        7
      ≡ some s)
    × Evolves stored s
unfolding submit empty get
calls-Evolves_example =
    calls-Evolves (submit empty stored).0 (accepts 7 ∷ rejects 7 price_unavailable ∷ cancels 7 ∷ [])
      7 refl

abbrev limits : RiskEngine Fixed
limits = record { cfg = test_limits }

-- A file with two values for the levels, of which the second cannot be read.
config_lines : List Text
config_lines =
    bytes "# limits"
    ∷ bytes " grid.levels : '12'"
    ∷ bytes "levels: 3"
    ∷ bytes "grid.levels: many"
    ∷ bytes "execution.dry_run: NO"
    ∷ []

reads_levels : field grid_levels_key (load_app_config {F = Fixed} (some config_lines)) ≡ pos 12
unfolding config_lines load_app_config read stoi
reads_levels = refl

field-load_app_config_example :
    field grid_levels_key (load_app_config {F = Fixed} (some config_lines))
    ≡ foldl
        (read Fixed grid_levels_key)
        (field grid_levels_key (load_app_config {F = Fixed} none))
        (values grid_levels_key config_lines)
field-load_app_config_example = field-load_app_config Fixed grid_levels_key config_lines
