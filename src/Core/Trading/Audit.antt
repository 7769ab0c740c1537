-- ===== src/Core/Trading/Audit.antt =====
-- What a `TradingCore` logs: the events of core/trading_core.cpp in the log, one call after another.
use frog_quant.Prelude.{
  ℕ, ◌≡◌, refl, pos, Bool, true, false, List, [], ◌∷◌, bytes, if◌then◌else◌, arith,
}
use frog_quant.Double.{Double, nought}
use frog_quant.Logger.{LogLevel, LogEvent, LogQueue, Logger, IsFifo, try_log, dropped_count}
use frog_quant.Logger
use frog_quant.Core.Orders.{OrderRecord, OrderRequest, RejectReason, is_none}
use frog_quant.Core.Oms.{submit, cancel}
use frog_quant.Core.Risk.{check_pre_trade}
use frog_quant.Core.Trading.{
  TradingCore, make_log, rr_to_str, source_code, on_tick, submit_manual_order, cancel_order,
  update_risk_config,
}
use frog_quant.Core.Trading.Outcome.{order_for}
use frog_quant.Core.Trading.History.{Event, ticks, submits, cancels, configures, handle}

module _ {F : Type 0} ⦃d : Double F⦄ where
  -- The line of a core that decides on an order.
  unfoldable pub decision : ℕ → OrderRecord F → (unpriced fresh : Bool) → RejectReason → LogEvent F
  unfolding make_log rr_to_str
  decision now order true fresh rr =
      make_log now Logger.warn (bytes "core") (bytes "order_reject") (bytes "price unavailable")
        (d.of_int (pos order.order_id)) nought
  decision now order false false rr =
      make_log now Logger.error (bytes "core") (bytes "order_submit") (bytes "duplicate order id")
        (d.of_int (pos order.order_id)) nought
  decision now order false true rr =
      let notional = d.mul order.qty order.ref_price in
      if is_none rr
      then make_log now Logger.info (bytes "core") (bytes "order_accept") (bytes "order accepted")
          (d.of_int (pos order.order_id)) notional
      else make_log now Logger.warn (bytes "core") (bytes "order_reject") (rr_to_str rr)
          (d.of_int (pos order.order_id)) notional

module _ {F Q : Type 0} ⦃d : Double F⦄ ⦃q : LogQueue F Q⦄ where
  -- The events that a call logs, from the state before it.
  unfoldable pub logged_by : TradingCore F Q → Event F → List (LogEvent F)
  unfolding make_log source_code submit cancel check_pre_trade decision
  logged_by c (ticks now tick) =
      make_log now Logger.debug (bytes "core") (bytes "tick") (bytes "last price updated")
        tick.price (d.of_int (source_code tick.source))
      ∷ []
  logged_by c (submits created now req) =
      let order = order_for created c req in
      decision now order (d.le order.ref_price nought) (submit c.oms order).1
        (check_pre_trade c.risk order c.account)
      ∷ []
  logged_by c (cancels now id) =
      let done = (cancel c.oms id).1 in
      make_log now (if done then Logger.info else Logger.warn) (bytes "core") (bytes "order_cancel")
        (if done then bytes "cancelled" else bytes "cancel_failed") (d.of_int (pos id)) nought
      ∷ []
  logged_by c (configures cfg) = []

  abbrev pub log_all : Logger Q → List (LogEvent F) → Logger Q
  unfolding try_log
  log_all l [] = l
  log_all l (ev ∷ rest) = log_all (try_log l ev).0 rest

  submit-logged :
      (created now : ℕ) (c : TradingCore F Q) (req : OrderRequest F)
      → (submit_manual_order created now c req).0.logger
        ≡ log_all c.logger (logged_by c (submits created now req))
  unfolding submit_manual_order logged_by decision
  submit-logged created now c req = ground arith

  pub handle-logged :
      (c : TradingCore F Q) (e : Event F) → (handle c e).logger ≡ log_all c.logger (logged_by c e)
  unfolding handle logged_by on_tick cancel_order update_risk_config
  handle-logged c (ticks now tick) = refl
  handle-logged c (submits created now req) = submit-logged created now c req
  handle-logged c (cancels now id) = refl
  handle-logged c (configures cfg) = refl
