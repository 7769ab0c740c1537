-- ===== src/App/Context.antt =====
-- `ControlApiContext` of app/control_api_router.hpp: what the threads of main.cpp share. A reference
-- to an object of main.cpp is that object's state.
use frog_quant.Prelude.{
  ℕ, ◌+◌, ◌-◌, ◌%◌, ◌^◌, ℤ, pos, negsuc, Bool, List, [], ◌∷◌, ◌++◌, Text, if◌then◌else◌, ltb,
  length, drop, min,
}
use frog_quant.Core.Orders.{RiskConfig}
use frog_quant.Core.Trading.{TradingCore}
use frog_quant.Grid.{LongGridStrategy}
use frog_quant.Execution.{ExecConfig, PlaceOrder}
use frog_quant.App.Config.{AppConfig}
use frog_quant.App.Files.{Disk}

pub record ApiOrderItem : Type 0 where
  pub internal_id : ℕ
  pub status : Text
  pub reject_reason : Text
  pub ts_ms : ℕ

-- `sent` are the calls of `exec.place_order`, whose results the handler ignores, and `max_events`
-- is the bound that `push_event` captures.
pub record ControlApiContext (F Q : Type 0) : Type 0 where
  pub cfg : AppConfig F
  pub exec_cfg : ExecConfig
  pub start_ms : ℕ
  pub tick_count : ℕ
  pub last_tick_ms : ℕ
  pub strategy_enabled : Bool
  pub grid : LongGridStrategy F
  pub core : TradingCore F Q
  pub risk_cfg : RiskConfig F
  pub sent : List (PlaceOrder F)
  pub events : List Text
  pub orders : List ApiOrderItem
  pub max_orders : ℕ
  pub order_trim_batch : ℕ
  pub max_events : ℕ
  pub disk : Disk

-- The readings of the clock that one request makes, in their order.
pub record Clock : Type 0 where
  pub first : ℕ
  pub second : ℕ
  pub third : ℕ

-- `a - b` and `static_cast<uint64_t>(n)`
abbrev pub sub_u64 : ℕ → ℕ → ℕ
sub_u64 a b = (a + 2 ^ 64 - b % 2 ^ 64) % 2 ^ 64

abbrev pub u64_of_int : ℤ → ℕ
u64_of_int (pos n) = n % 2 ^ 64
u64_of_int (negsuc n) = sub_u64 0 (n + 1)

unfoldable pub pushed_event : ℕ → List Text → Text → List Text
pushed_event max_events events e =
    let es = events ++ e ∷ [] in if ltb max_events (length es) then drop 1 es else es

unfoldable pub pushed_order : ℕ → ℕ → List ApiOrderItem → ApiOrderItem → List ApiOrderItem
pushed_order max_orders order_trim_batch orders item =
    let os = orders ++ item ∷ [] in
    if ltb max_orders (length os) then drop (min order_trim_batch (length os)) os else os

module _ {F Q : Type 0} where
  unfoldable pub push_event : Text → ControlApiContext F Q → ControlApiContext F Q
  unfolding pushed_event
  push_event e ctx = record ctx { events = pushed_event ctx.max_events ctx.events e }

  unfoldable pub push_order : ApiOrderItem → ControlApiContext F Q → ControlApiContext F Q
  unfolding pushed_order
  push_order item ctx = record ctx {
    orders = pushed_order ctx.max_orders ctx.order_trim_batch ctx.orders item;
  }
