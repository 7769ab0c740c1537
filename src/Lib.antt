-- ===== src/Lib.antt =====
-- FrogQuant: a verification of its C++ server (cpp/) and of what its Qt client sends (qt_client/).
--
-- The server trades one symbol. Market data arrives as ticks; each tick goes to the trading core,
-- which keeps the last price, and to the grid strategy, which answers with order intents. Manual
-- orders come in over a local HTTP interface, pass the pre-trade risk checks of the core and are kept
-- in its order store. Everything that the core does is handed to an asynchronous logger.
--
-- Which file models what (paths from the repository's root):
--   Core/Orders        cpp/include/core/order_types.hpp, cpp/include/market/market_types.hpp
--   Core/Oms           cpp/src/core/oms.cpp: class OMS. The hash map is a function from ids to
--                      records; a method gives the new store and its result.
--   Core/Risk          cpp/src/core/risk_engine.cpp: class RiskEngine
--   Core/Trading       cpp/src/core/trading_core.cpp: class TradingCore. `submit_manual_order` is
--                      split where the source branches: `reject_unpriced`, `place`, `settle`.
--                      `Core/Trading/History` is any sequence of calls of the public methods;
--                      Core/Trading/Journal has them beside the worker of the logger.
--   Core/FlatConfig    cpp/src/core/app_config.cpp: the loader of `key: value` lines. The chain of
--                      branches on the key is `key_of` and, branch by branch, `set`.
--   Grid               cpp/src/strategy/long_grid_strategy.cpp: class LongGridStrategy.
--                      `on_price_tick` is `recenter`, `scan` and `place_candidate`;
--                      `Grid/Validity` has any sequence of calls of the public methods.
--   Logger             cpp/include/logger/log_event.hpp and cpp/src/logger/async_jsonl_logger.cpp:
--                      `try_log`, `start` and `stop`; the lines of the file are in Logger/Json, and
--                      the worker `run` beside its producers, action by action, in Logger/Worker.
--   Strings            std::string and std::getline, std::stoi and std::stoull (Strings/Numbers)
--   App/Config         cpp/include/app/app_support.hpp: AppConfig; cpp/src/app/app_support.cpp:
--                      parse_simple_yaml and load_config over the lines of a file
--   App/Json, Format   cpp/src/app/app_support.cpp: the readers of JSON bodies, and the texts made of
--                      enumerators, the configuration and the grid
--   App/Files, RuntimeState
--                      cpp/src/app/app_support.cpp: the credentials file and the runtime state, over
--                      a file system that is a value (Disk)
--   App/Context        cpp/include/app/control_api_router.hpp: ControlApiContext; `push_event` is the
--                      closure of cpp/src/app/main.cpp
--   App/Handlers, Updates, Trade, Router
--                      cpp/src/app/control_api_router.cpp: one function per route, and the handler.
--                      `sent` in the context are the calls of the execution client that it makes.
--   App/Bootstrap      cpp/src/app/bootstrap.cpp and the readers of environment variables
--   App/Main           cpp/src/app/main.cpp up to the start of the servers, and the tick handler of
--                      cpp/src/app/runtime_loop.cpp; `run` takes requests and ticks in any order, and
--                      App/Main/Calls has the calls of the core that they make.
--   App/Live           the router's orders, sent by the execution client with the start-up's keys
--   App/Server         the router behind the HTTP server, as main.cpp puts them together
--   App/RunGuard       cpp/src/app/run_guard.cpp: run_until_stop
--   App/Program        the threads of cpp/src/app/main.cpp: the market data service, the server and
--                      the main thread, which stops and joins them, action by action; the tick handler
--                      of cpp/src/app/runtime_loop.cpp in four turns
--   App/Locks          grid_mu and state_mu of cpp/src/app/main.cpp: which of them each call of the
--                      tick handler and of the router takes, in which order
--   Curl, Execution    cpp/src/execution/binance_testnet_execution.cpp: class BinanceTestnetExecution. A
--                      call gives its result and the request that goes on the wire, if any.
--                      Execution/Fields splits a query and knows nothing of orders; it decodes nothing.
--   Market/Rest        cpp/src/market/binance_rest_client.cpp: class BinanceRestClient
--   Market/Trades      cpp/src/market/binance_ws_client.cpp: the messages of the stream
--   Market/Service     cpp/src/market/market_data_service.cpp and the loop of the WebSocket client: two
--                      threads, the caller and the network, action by action
--   Control            cpp/src/control/local_http_server.cpp: the rounds of its loop;
--                      Control/Lifecycle has its thread, from `start` to the end of `run`
--   Bench              cpp/src/bench/benchmark_trading_core.cpp
--   Client             qt_client/src/api_client.cpp: the calls of the server
--   Client/Strategy, Trading, Panels
--                      qt_client/src/pages: the buttons with their checks, the timer, the table of
--                      the logs and the state of the connection
--   Client/Answers, Pages, Dashboard
--                      qt_client/src/pages: what each page makes of the server's answers
--   Client/Wire        what Qt sends for a call; Client/Accepted and OrderAccepted lead the
--                      two forms through the server
-- Prelude, Double and Tests serve all of these: shared helpers, the interface of `double`, and the
-- examples.
--
-- Numbers. `double` is any type with the operations that the code uses (Double.Double); theorems that
-- need more name it: the IEEE comparisons (IsOrdered), products of positive numbers (HasSigns), how
-- the literals of the defaults compare (HasDefaults), rounding that keeps the order (IsScaling,
-- IsMonotone). Double/Fixed meets them all with whole millionths and a NaN. 64-bit counters wrap
-- (`% 2 ^ 64`); `int` is an unbounded integer, since the values that the modelled code computes with
-- are small. Texts are lists of bytes.
--
-- Fuel. A turn of the worker that drains the queue takes the number of pops that it may make. The
-- drain is a loop whose partial runs are also turns, and more pops than there are events end it.
-- run_until_stop takes the number of rounds that it may make: a run of n seconds makes at most 5 n,
-- since each sleeps 200 ms, and 5 n + 1 are enough. The other loops are recursions on lists and
-- on numbers that the code itself counts.
--
-- Time and threads. Each call is given the readings of the clock that it makes. In App/Program the
-- tick handler takes four turns of its thread: the count, the time, the call of the core, and the part
-- under grid_mu. Other threads may take turns between them, which is lost where a sequence has each tick
-- as a whole (App/Main, Core/Trading/History). A request is taken as a whole, and so is a method of
-- TradingCore: the grid, the events and the orders are behind mutexes (App/Locks), the order store and the
-- limits are used by the thread of the server alone, but TradingCore itself has no lock, and its last
-- price is shared without one. What a request may see of a tick that arrives in its middle is not
-- modelled. Opening the stream is four calls, and closing it is one (Market/Service). Producers and the
-- worker of the logger, the threads of the market data service, of the server and of main interleave
-- freely, action by action.
--
-- Not modelled: the layout and the labels of the Qt client, the headers of an HTTP answer, the console
-- output but for the benchmark's numbers, and the tests in C++, which drive the modelled code.
-- Sockets, TLS and HTTP are Boost's and libcurl's, HMAC-SHA256 is OpenSSL's, the parser and the
-- printers of JSON in the client are Qt's (QtReader, QtJson): parameters, or outcomes that the actions carry.
-- Boost's lock-free queue is a parameter (LogQueue), with first-in first-out order as a hypothesis
-- (IsFifo). The texts of numbers are a parameter as well (DoubleText): std::stod, std::to_string and
-- the stream operator.
mod Prelude
pub mod Double
pub mod Logger
pub mod Core
pub mod Grid
mod Tests
pub mod Strings
pub mod Curl
pub mod Execution
pub mod Market
pub mod Control
pub mod App
pub mod Bench
pub mod Client
