-- ===== src/Tests/Inputs.antt =====
-- A bounded queue of log events, and the numbers of the examples.
use frog_quant.Prelude.{
  ℕ, ◌≡◌, false, Option, none, some, List, [], ◌∷◌, ◌++◌, if◌then◌else◌, ltb, length, arith, bytes,
}
use frog_quant.Double.{nought}
use frog_quant.Double.Fixed.{Fixed, fixed_double}
use frog_quant.Logger.{LogEvent, LogQueue, IsFifo, Logger}
use frog_quant.Core.Orders.{
  OrderRequest, RiskConfig, MarketTick, OrderSide, OrderType, buy, market, web_socket,
}

abbrev pub Queue : Type 0
Queue = List (LogEvent Fixed)

abbrev take_front : Queue → Option (LogEvent Fixed × Queue)
take_front [] = none
take_front (e ∷ rest) = some (e, rest)

-- Room for two events.
instance abbrev pub small_queue : LogQueue Fixed Queue
small_queue = record {
  push = λ s e. if ltb (length s) 2 then some (s ++ e ∷ []) else none;
  pop = take_front;
}

pub push-contents :
    (s : Queue) (e : LogEvent Fixed) {t : Queue} → small_queue.push s e ≡ some t → t ≡ s ++ e ∷ []
push-contents s e h = ground arith

pub pop-none : (s : Queue) → take_front s ≡ none → s ≡ []
pop-none s h = ground arith

pub pop-some : (s : Queue) {e : LogEvent Fixed} {t : Queue} → take_front s ≡ some (e, t) → s ≡ e ∷ t
pop-some s h = ground arith

unfoldable pub small_queue-IsFifo : IsFifo small_queue
small_queue-IsFifo = record {
  contents = λ s. s;
  push-contents = push-contents;
  pop-none = pop-none;
  pop-some = pop-some;
}

abbrev pub usd : ℕ → Fixed
usd n = fixed_double.lit n 0

abbrev pub idle_logger : Logger Queue
idle_logger = record { file_path = bytes "test.jsonl"; queue = []; running = false; dropped = 0 }

abbrev pub test_limits : RiskConfig Fixed
test_limits = record {
  max_single_order_notional_usd = usd 10;
  max_position_ratio = fixed_double.lit 8 1;
  daily_loss_stop_ratio = fixed_double.lit 5 2;
}

abbrev pub test_tick : MarketTick Fixed
test_tick = record {
  symbol = bytes "BTCUSDT";
  price = usd 60000;
  exchange_ts = 0;
  recv_ts = 1;
  source = web_socket;
}

abbrev pub request : OrderSide → OrderType → Fixed → Fixed → OrderRequest Fixed
request side type qty price = record {
  symbol = bytes "BTCUSDT";
  side = side;
  type = type;
  qty = qty;
  limit_price = price;
}

-- About 6 and about 60 dollars.
abbrev pub small_buy : OrderRequest Fixed
small_buy = request buy market (fixed_double.lit 1 4) nought

abbrev pub big_buy : OrderRequest Fixed
big_buy = request buy market (fixed_double.lit 1 3) nought
