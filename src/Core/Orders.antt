-- ===== src/Core/Orders.antt =====
-- core/order_types.hpp, and market/market_types.hpp, which the core reads.
use frog_quant.Prelude.{ℕ, Bool, true, false, Text}
use frog_quant.Double.{Double, nought}

pub data OrderSide : Type 0 where
  buy sell : OrderSide

pub data OrderType : Type 0 where
  market limit : OrderType

pub data OrderStatus : Type 0 where
  new accepted rejected cancelled : OrderStatus

pub data RejectReason : Type 0 where
  no_reason max_single_order_notional max_position_ratio daily_loss_stop price_unavailable :
      RejectReason

pub record OrderRequest (F : Type 0) : Type 0 where
  pub symbol : Text
  pub side : OrderSide
  pub type : OrderType
  pub qty : F
  pub limit_price : F

pub record OrderRecord (F : Type 0) : Type 0 where
  pub order_id : ℕ
  pub symbol : Text
  pub side : OrderSide
  pub type : OrderType
  pub qty : F
  pub ref_price : F
  pub status : OrderStatus
  pub reject_reason : RejectReason
  pub create_ts_ms : ℕ

pub record RiskConfig (F : Type 0) : Type 0 where
  pub max_single_order_notional_usd : F
  pub max_position_ratio : F
  pub daily_loss_stop_ratio : F

pub record AccountSnapshot (F : Type 0) : Type 0 where
  pub equity_usd : F
  pub position_notional_usd : F
  pub day_loss_usd : F

-- The initial values of the members.
unfoldable pub default_account : {F : Type 0} ⦃d : Double F⦄ → AccountSnapshot F
default_account ⦃d⦄ = record {
  equity_usd = d.lit 1000 0;
  position_notional_usd = nought;
  day_loss_usd = nought;
}

unfoldable pub default_risk_config : {F : Type 0} ⦃d : Double F⦄ → RiskConfig F
default_risk_config ⦃d⦄ = record {
  max_single_order_notional_usd = d.lit 10 0;
  max_position_ratio = d.lit 80 2;
  daily_loss_stop_ratio = d.lit 5 2;
}

pub data TickSource : Type 0 where
  web_socket rest_fallback : TickSource

pub record MarketTick (F : Type 0) : Type 0 where
  pub symbol : Text
  pub price : F
  pub exchange_ts : ℕ
  pub recv_ts : ℕ
  pub source : TickSource

-- The comparisons of enumerators that the code makes.
abbrev pub is_new : OrderStatus → Bool
is_new new = true
is_new _ = false

abbrev pub is_accepted : OrderStatus → Bool
is_accepted accepted = true
is_accepted _ = false

abbrev pub is_limit : OrderType → Bool
is_limit limit = true
is_limit market = false

abbrev pub is_buy : OrderSide → Bool
is_buy buy = true
is_buy sell = false

abbrev pub is_none : RejectReason → Bool
is_none no_reason = true
is_none _ = false
