-- ===== src/Core/Trading.antt =====
-- core/trading_core.{hpp,cpp}: `TradingCore`, which drives the order store, the risk checks and the
-- log. Each call is given the readings of the clock that it makes, in the order of the calls of
-- `now_ms` and `make_log`.
pub mod Outcome
pub mod Decisions
pub mod History
pub mod Ledger
pub mod Exposure
pub mod Audit
pub mod Journal
pub mod Complete
use frog_quant.Prelude.{
  ℕ, ◌+◌, ◌%◌, ◌^◌, ℤ, pos, Bool, true, false, ◌&&◌, Option, Text, bytes, if◌then◌else◌,
}
use frog_quant.Double.{Double, nought}
use frog_quant.Logger.{LogLevel, LogEvent, LogQueue, Logger, copy_field, try_log}
use frog_quant.Logger
use frog_quant.Core.Orders.{
  OrderRecord, OrderRequest, RiskConfig, AccountSnapshot, RejectReason, MarketTick, TickSource,
  default_account, new, no_reason, max_single_order_notional, max_position_ratio, daily_loss_stop,
  price_unavailable, web_socket, rest_fallback, is_limit, is_buy, is_none,
}
use frog_quant.Core.Oms.{Oms, submit, accept, reject, cancel, get, empty}
use frog_quant.Core.Risk.{RiskEngine, new_risk_engine, set_config, config, check_pre_trade}

unfoldable pub rr_to_str : RejectReason → Text
rr_to_str no_reason = bytes "None"
rr_to_str max_single_order_notional = bytes "MaxSingleOrderNotional"
rr_to_str max_position_ratio = bytes "MaxPositionRatio"
rr_to_str daily_loss_stop = bytes "DailyLossStop"
rr_to_str price_unavailable = bytes "PriceUnavailable"

unfoldable pub make_log : {F : Type 0} → ℕ → LogLevel → Text → Text → Text → F → F → LogEvent F
unfolding copy_field
make_log now lv module_name event msg v1 v2 = record {
  ts_ms = now;
  level = lv;
  module_name = copy_field 23 module_name;
  event = copy_field 23 event;
  message = copy_field 159 msg;
  value1 = v1;
  value2 = v2;
}

-- `seq` is an atomic 64-bit counter.
pub record TradingCore (F Q : Type 0) : Type 0 where
  pub logger : Logger Q
  pub oms : Oms F
  pub risk : RiskEngine F
  pub seq : ℕ
  pub last_price : F
  pub account : AccountSnapshot F

unfoldable pub source_code : TickSource → ℤ
source_code web_socket = pos 1
source_code rest_fallback = pos 2

module _ {F : Type 0} ⦃d : Double F⦄ where
  -- The price that the checks use: the limit price of a limit order that has one, or the last tick.
  unfoldable pub ref_price_of : OrderRequest F → F → F
  ref_price_of req last_price =
      if is_limit req.type && d.lt nought req.limit_price then req.limit_price else last_price

  unfoldable pub new_order : ℕ → ℕ → OrderRequest F → F → OrderRecord F
  unfolding ref_price_of
  new_order id now req last_price = record {
    order_id = id;
    symbol = req.symbol;
    side = req.side;
    type = req.type;
    qty = req.qty;
    ref_price = ref_price_of req last_price;
    status = new;
    reject_reason = no_reason;
    create_ts_ms = now;
  }

  -- The account after an order was accepted: a buy adds its notional amount.
  unfoldable pub book : OrderRecord F → AccountSnapshot F → AccountSnapshot F
  book order account =
      if is_buy order.side
      then record account {
        position_notional_usd =
            d.add account.position_notional_usd (d.mul order.qty order.ref_price);
      }
      else account

module _ {F Q : Type 0} ⦃d : Double F⦄ ⦃q : LogQueue F Q⦄ where
  unfoldable pub new_trading_core : RiskConfig F → Logger Q → TradingCore F Q
  unfolding empty new_risk_engine default_account
  new_trading_core cfg logger = record {
    logger = logger;
    oms = empty;
    risk = new_risk_engine cfg;
    seq = 0;
    last_price = nought;
    account = default_account;
  }

  -- `logger_.try_log(make_log(lv, "core", …))`, whose result the core ignores
  unfoldable pub log_core : ℕ → LogLevel → Text → Text → F → F → TradingCore F Q → TradingCore F Q
  unfolding make_log try_log
  log_core now lv event msg v1 v2 c = record c {
    logger = (try_log c.logger (make_log now lv (bytes "core") event msg v1 v2)).0;
  }

  unfoldable pub on_tick : (now : ℕ) → TradingCore F Q → MarketTick F → TradingCore F Q
  unfolding log_core source_code
  on_tick now c tick =
      log_core now Logger.debug (bytes "tick") (bytes "last price updated") tick.price
        (d.of_int (source_code tick.source)) (record c { last_price = tick.price })

  -- An order with no price to go by.
  reject_unpriced : ℕ → OrderRecord F → TradingCore F Q → TradingCore F Q
  unfolding log_core submit reject
  reject_unpriced now order c =
      log_core now Logger.warn (bytes "order_reject") (bytes "price unavailable")
        (d.of_int (pos order.order_id)) nought
        (record c { oms = (reject (submit c.oms order).0 order.order_id price_unavailable).0 })

  -- The risk check's answer for an order that is in the store, and what follows from it.
  settle : ℕ → OrderRecord F → RejectReason → TradingCore F Q → TradingCore F Q
  unfolding log_core accept reject book rr_to_str
  settle now order rr c =
      let notional = d.mul order.qty order.ref_price in
      let id = d.of_int (pos order.order_id) in
      if is_none rr
      then log_core now Logger.info (bytes "order_accept") (bytes "order accepted") id notional
          (record c { oms = (accept c.oms order.order_id).0; account = book order c.account })
      else log_core now Logger.warn (bytes "order_reject") (rr_to_str rr) id notional
          (record c { oms = (reject c.oms order.order_id rr).0 })

  -- An order with a price: to the store first, then through the risk check.
  place : ℕ → OrderRecord F → TradingCore F Q → Oms F × Bool → TradingCore F Q
  unfolding log_core settle check_pre_trade
  place now order c (oms, false) =
      log_core now Logger.error (bytes "order_submit") (bytes "duplicate order id")
        (d.of_int (pos order.order_id)) nought (record c { oms = oms })
  place now order c (oms, true) =
      settle now order (check_pre_trade c.risk order c.account) (record c { oms = oms })

  -- The order's id is the second result. `created` and `now` are two readings of the clock.
  unfoldable pub submit_manual_order :
      (created now : ℕ) → TradingCore F Q → OrderRequest F → TradingCore F Q × ℕ
  unfolding new_order reject_unpriced place submit
  submit_manual_order created now c req =
      let id = (c.seq + 1) % 2 ^ 64 in
      let c' : TradingCore F Q = record c { seq = id } in
      let order = new_order id created req c.last_price in
      (
        if d.le order.ref_price nought
            then reject_unpriced now order c'
            else place now order c' (submit c.oms order),
        id,
      )

  unfoldable pub cancel_order : (now : ℕ) → TradingCore F Q → ℕ → TradingCore F Q × Bool
  unfolding log_core cancel
  cancel_order now c order_id =
      let (oms, done) = cancel c.oms order_id in
      (
        log_core now (if done then Logger.info else Logger.warn) (bytes "order_cancel")
            (if done then bytes "cancelled" else bytes "cancel_failed") (d.of_int (pos order_id))
            nought (record c { oms = oms }),
        done,
      )

module _ {F Q : Type 0} where
  unfoldable pub get_order : TradingCore F Q → ℕ → Option (OrderRecord F)
  unfolding get
  get_order c order_id = get c.oms order_id

  unfoldable pub update_risk_config : TradingCore F Q → RiskConfig F → TradingCore F Q
  unfolding set_config
  update_risk_config c cfg = record c { risk = set_config c.risk cfg }

  unfoldable pub risk_config : TradingCore F Q → RiskConfig F
  unfolding config
  risk_config c = config c.risk
