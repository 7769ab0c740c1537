-- ===== src/Market/Service.antt =====
-- market/market_data_service.cpp and the lifecycle of market/binance_ws_client.cpp: two threads that
-- call the same handler, each of which tests its `running_` flag between two rounds. The threads, the
-- caller and the network take turns, action by action.
use frog_quant.Prelude.{
  ℕ, Bool, true, false, ◌||◌, Option, none, some, List, [], ◌∷◌, ◌++◌, Text, if◌then◌else◌,
}
use frog_quant.Double.{DoubleText}
use frog_quant.Core.Orders.{MarketTick}
use frog_quant.Market.Trades.{parse_trade_json}

-- Where the WebSocket thread stands: there is none, it is about to test the flag of the outer loop,
-- it is in one of the four calls that open the stream (the resolver, the TCP connection, the TLS
-- handshake and that of the WebSocket), it is about to test the flag of the loop that reads, it waits
-- for a message, it is in `ws.close`, or it has left.
pub data Phase : Type 0 where
  absent testing resolving connecting securing upgrading connected waiting closing left : Phase

-- The thread that polls the REST client: it tests the flag, or fetches and sleeps.
pub data Polling : Type 0 where
  unstarted checking fetching ended : Polling

-- `ticks` are the calls of the handler so far.
pub record Service (F : Type 0) : Type 0 where
  pub running : Bool
  pub ws_running : Bool
  pub ws : Phase
  pub rest : Polling
  pub ticks : List (MarketTick F)

-- `connects` says whether the call that opens the stream, of the four, succeeds, `reads` gives a
-- message or the failure of a read, `closes` is the return of `ws.close`, and `fetches` what
-- `fetch_last_price` returns; `ws_tests` and `rest_tests` are tests of the flags.
pub data Action (F : Type 0) : Type 0 where
  starts stops ws_tests rest_tests closes : Action F
  connects : Bool → Action F
  reads : (now : ℕ) → Option Text → Action F
  fetches : Option (MarketTick F) → Action F

abbrev pub is_present : Phase → Bool
is_present absent = false
is_present left = false
is_present _ = true

abbrev pub is_polling : Polling → Bool
is_polling checking = true
is_polling fetching = true
is_polling _ = false

module _ {F : Type 0} where
  unfoldable pub new_service : Service F
  new_service = record {
    running = false;
    ws_running = false;
    ws = absent;
    rest = unstarted;
    ticks = [];
  }

  abbrev pub called : Option (MarketTick F) → List (MarketTick F) → List (MarketTick F)
  called none ticks = ticks
  called (some m) ticks = ticks ++ m ∷ []

  -- `start`, which starts the WebSocket client as well; each tests its own flag. While a `stop` is
  -- still joining a thread the caller is not back, and nothing is started.
  unfoldable pub start : Service F → Service F
  start s = if s.running || (is_present s.ws || is_polling s.rest) then s else record s {
    running = true;
    ws_running = true;
    ws = if s.ws_running then s.ws else testing;
    rest = checking;
  }

  -- `stop` up to the first join: both threads are told to leave.
  unfoldable pub stop : Service F → Service F
  stop s = if s.running then record s { running = false; ws_running = false } else s

  -- The test of the outer loop, and of the loop that reads, behind which the stream is closed.
  unfoldable pub ws_test : Phase → Service F → Service F
  ws_test testing s = record s { ws = if s.ws_running then resolving else left }
  ws_test connected s = record s { ws = if s.ws_running then waiting else closing }
  ws_test _ s = s

  -- The calls that open the stream, one after another. A failure leads back to the outer loop, after
  -- a second of sleep.
  unfoldable pub ws_connect : Bool → Phase → Service F → Service F
  ws_connect opened resolving s = record s { ws = if opened then connecting else testing }
  ws_connect opened connecting s = record s { ws = if opened then securing else testing }
  ws_connect opened securing s = record s { ws = if opened then upgrading else testing }
  ws_connect opened upgrading s = record s { ws = if opened then connected else testing }
  ws_connect opened _ s = s

  -- The errors of `ws.close` are ignored, and the outer loop tests its flag.
  unfoldable pub ws_close : Phase → Service F → Service F
  ws_close closing s = record s { ws = testing }
  ws_close _ s = s

  unfoldable pub rest_test : Polling → Service F → Service F
  rest_test checking s = record s { rest = if s.running then fetching else ended }
  rest_test _ s = s

  unfoldable pub rest_fetch : Option (MarketTick F) → Polling → Service F → Service F
  rest_fetch m fetching s = record s { rest = checking; ticks = called m s.ticks }
  rest_fetch m _ s = s

module _ {F : Type 0} ⦃t : DoubleText F⦄ where
  -- A message that is no trade gives no call.
  unfoldable pub ws_read : ℕ → Option Text → Phase → Service F → Service F
  unfolding parse_trade_json
  ws_read now (some json) waiting s = record s {
    ws = connected;
    ticks = called (parse_trade_json now json) s.ticks;
  }
  ws_read now none waiting s = record s { ws = testing }
  ws_read now message _ s = s

  unfoldable pub step : Service F → Action F → Service F
  unfolding start stop ws_test ws_connect ws_close rest_test rest_fetch ws_read
  step s starts = start s
  step s stops = stop s
  step s ws_tests = ws_test s.ws s
  step s rest_tests = rest_test s.rest s
  step s closes = ws_close s.ws s
  step s (connects opened) = ws_connect opened s.ws s
  step s (reads now message) = ws_read now message s.ws s
  step s (fetches m) = rest_fetch m s.rest s

  unfoldable pub run : Service F → List (Action F) → Service F
  unfolding step
  run s [] = s
  run s (a ∷ rest) = run (step s a) rest
