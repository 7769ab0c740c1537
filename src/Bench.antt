-- ===== src/Bench.antt =====
-- bench/benchmark_trading_core.cpp: a `TradingCore` that is given one order over and over, and the
-- percentiles of the time that each takes. `std::atoi` and `std::sort` are parameters.
pub mod Percentiles
use frog_quant.Prelude.{
  ℕ, suc, zero, ◌+◌, ◌-◌, ◌%◌, ◌^◌, ◌≡◌, ℤ, pos, pos_part, ltb_ℤ, Option, none, some, List, [], ◌∷◌,
  ◌++◌, Text, bytes, if◌then◌else◌, length,
}
use frog_quant.Double.{Double, nought}
use frog_quant.Logger.{LogQueue, Logger, dropped_count}
use frog_quant.Logger
use frog_quant.Core.Orders.{
  RiskConfig, MarketTick, OrderRequest, default_risk_config, rest_fallback, buy, market,
}
use frog_quant.Core.Trading.{TradingCore, new_trading_core, on_tick, submit_manual_order}

unfoldable pub iterations : (atoi : Text → ℤ) → Option Text → ℕ
iterations atoi none = 200_000
iterations atoi (some arg) = let n = atoi arg in if ltb_ℤ (pos 1000) n then pos_part n else 1000

module _ {F : Type 0} ⦃d : Double F⦄ where
  unfoldable pub bench_risk : RiskConfig F
  unfolding default_risk_config
  bench_risk = record {
    max_single_order_notional_usd = d.lit 1_000_000_000 0;
    max_position_ratio = d.lit 1 0;
    daily_loss_stop_ratio = d.lit 1 0;
  }

  unfoldable pub bench_tick : MarketTick F
  bench_tick = record {
    symbol = bytes "BTCUSDT";
    price = d.lit 60_000 0;
    exchange_ts = 0;
    recv_ts = 1;
    source = rest_fallback;
  }

  unfoldable pub bench_request : OrderRequest F
  bench_request = record {
    symbol = bytes "BTCUSDT";
    side = buy;
    type = market;
    qty = d.lit 1 3;
    limit_price = nought;
  }

-- The clocks of one iteration: `steady_clock` before and after the call, in nanoseconds, and the two
-- readings that the call makes.
pub record Reading : Type 0 where
  pub started : ℕ
  pub created : ℕ
  pub now : ℕ
  pub ended : ℕ

unfoldable pub elapsed : Reading → ℕ
elapsed r = (r.ended + 2 ^ 64 - r.started) % 2 ^ 64

module _ {F Q : Type 0} ⦃d : Double F⦄ ⦃q : LogQueue F Q⦄ where
  -- The loop, with one reading for each iteration.
  unfoldable pub measure : TradingCore F Q → List Reading → TradingCore F Q × List ℕ
  unfolding submit_manual_order bench_request elapsed
  measure core [] = (core, [])
  measure core (r ∷ rest) =
      let core' = (submit_manual_order r.created r.now core bench_request).0 in
      let (last, ns) = measure core' rest in (last, elapsed r ∷ ns)

  unfoldable pub bench_core : Logger Q → (now : ℕ) → TradingCore F Q
  unfolding new_trading_core on_tick bench_risk bench_tick
  bench_core logger now = on_tick now (new_trading_core bench_risk logger) bench_tick

abbrev pub get_elem? : {A : Type 0} → List A → ℕ → Option A
get_elem? [] n = none
get_elem? (x ∷ xs) zero = some x
get_elem? (x ∷ xs) (suc n) = get_elem? xs n

-- `back`
abbrev pub back : List ℕ → Option ℕ
back [] = none
back (x ∷ []) = some x
back (x ∷ xs) = back xs

module _ {F : Type 0} ⦃d : Double F⦄ where
  -- `none` stands for an index out of range.
  unfoldable pub pct : List ℕ → F → Option ℕ
  pct ns p = get_elem? ns (d.to_u64 (d.mul p (d.of_int (pos ((length ns + 2 ^ 64 - 1) % 2 ^ 64)))))

  unfoldable pub ops_per_sec : ℕ → ℕ → F
  ops_per_sec iterations total_ns =
      d.div (d.of_int (pos iterations)) (d.div (d.of_int (pos total_ns)) (d.lit 1_000_000_000 0))

-- What is printed.
pub record Report (F : Type 0) : Type 0 where
  pub iterations : ℕ
  pub ops_per_sec : F
  pub p50 : Option ℕ
  pub p95 : Option ℕ
  pub p99 : Option ℕ
  pub max : Option ℕ
  pub dropped_logs : ℕ

module _ {F Q : Type 0} ⦃d : Double F⦄ ⦃q : LogQueue F Q⦄ where
  -- `t0` and `t1` are the readings of `steady_clock` around the loop. The worker of the logger is left
  -- out: it takes no part in what is counted here but the room that it makes in the queue.
  unfoldable pub report :
      (sort : List ℕ → List ℕ) → (t0 t1 : ℕ) → TradingCore F Q → List Reading → Report F
  unfolding measure pct ops_per_sec dropped_count
  report sort t0 t1 core readings =
      let (last, unsorted) = measure core readings in
      let ns = sort unsorted in
      record {
        iterations = length readings;
        ops_per_sec = ops_per_sec (length readings) (t1 - t0);
        p50 = pct ns (d.lit 50 2);
        p95 = pct ns (d.lit 95 2);
        p99 = pct ns (d.lit 99 2);
        max = back ns;
        dropped_logs = dropped_count last.logger;
      }
