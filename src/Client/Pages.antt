-- ===== src/Client/Pages.antt =====
-- What the answers of the server change on qt_client/src/pages/logs_page.cpp, strategy_page.cpp and
-- trading_page.cpp.
use frog_quant.Prelude.{
  ℕ, ◌≡◌, false, ◌||◌, ◌&&◌, Option, none, some, [], ◌++◌, Text, bytes, show_nat, if◌then◌else◌,
  text_eq, arith,
}
use frog_quant.Double.{Double, nought}
use frog_quant.Client.{is_ok}
use frog_quant.Client.Panels.{Logs}
use frog_quant.Client.Panels
use frog_quant.Client.Answers.{
  Json, number, string, array, object, Items, item, Fields, QtReader, as_object, value, count,
  routed,
}

module _ {F : Type 0} (qt : QtReader F) where
  id_part : Option (Json F) → Text
  id_part (some v) = bytes ", first_internal_id=" ++ qt.variant_text v
  id_part none = []

  -- `toString` of what is no string is empty.
  status_part : Option (Json F) → Text
  status_part (some (string s)) = bytes ", status=" ++ s
  status_part (some _) = bytes ", status="
  status_part none = []

  first_part : Items F → Text
  unfolding value id_part status_part
  first_part (item (object first) rest) =
      id_part (value first (bytes "internal_id")) ++ status_part (value first (bytes "status"))
  first_part _ = []

  items_part : Text → Option (Json F) → Text
  unfolding show_nat count first_part
  items_part body (some (array items)) =
      bytes "items=" ++ (show_nat (count items) ++ first_part items)
  items_part body _ = body

  object_part : Text → Option (Fields F) → Text
  unfolding items_part value
  object_part body (some obj) = items_part body (value obj (bytes "items"))
  object_part body none = body

  -- The summary of an answer in the tables of orders and events.
  unfoldable pub summary : Text → Text
  unfolding object_part as_object
  summary body = object_part body (as_object (qt.from_json body))

  unfoldable pub on_logs_response : (time route : Text) → ℕ → (body : Text) → Logs → Logs
  unfolding Panels.on_response summary
  on_logs_response time route code body s = Panels.on_response time route code (summary body) s

-- The texts of `StrategyPage` that answers change.
pub record StrategyTexts : Type 0 where
  pub result : Text
  pub risk_notional : Text
  pub risk_position_ratio : Text
  pub risk_loss_ratio : Text

module _ {F : Type 0} (qt : QtReader F) ⦃d : Double F⦄ where
  -- `toDouble` of what is no number is 0.
  unfoldable pub double_text : Text → Option (Json F) → Text
  double_text text none = text
  double_text text (some (number x)) = qt.number_string x
  double_text text (some _) = qt.number_string nought

  risk_texts : Option (Fields F) → StrategyTexts → StrategyTexts
  unfolding double_text value
  risk_texts none s = s
  risk_texts (some o) s = record s {
    risk_notional = double_text s.risk_notional (value o (bytes "max_single_order_notional_usd"));
    risk_position_ratio = double_text s.risk_position_ratio (value o (bytes "max_position_ratio"));
    risk_loss_ratio = double_text s.risk_loss_ratio (value o (bytes "daily_loss_stop_ratio"));
  }

  unfoldable pub on_strategy_response : Text → ℕ → Text → StrategyTexts → StrategyTexts
  unfolding text_eq routed is_ok risk_texts as_object
  on_strategy_response route code body s =
      if text_eq route (bytes "/strategy/grid/config")
        || (text_eq route (bytes "/strategy/grid/enable")
            || (text_eq route (bytes "/strategy/grid/runtime")
                || text_eq route (bytes "/risk/config")))
      then (let s' : StrategyTexts = record s { result = routed route code body } in
          if text_eq route (bytes "/risk/config") && is_ok code
          then risk_texts (as_object (qt.from_json body)) s'
          else s')
      else s

  -- Of all answers, only a successful one on the limits changes the texts of the limits.
  on_strategy_response-keeps :
      (route : Text) (code : ℕ) (body : Text) (s : StrategyTexts)
      → (text_eq route (bytes "/risk/config") && is_ok code) ≡ false
      → let s' = on_strategy_response route code body s in
        (s'.risk_notional ≡ s.risk_notional)
        × (s'.risk_position_ratio ≡ s.risk_position_ratio)
        × (s'.risk_loss_ratio ≡ s.risk_loss_ratio)
  unfolding on_strategy_response
  on_strategy_response-keeps route code body s h = ground arith

-- The texts of `TradingPage` that answers change.
pub record TradingTexts : Type 0 where
  pub result : Text
  pub cred_status : Text

unfoldable pub on_trading_response : Text → ℕ → Text → TradingTexts → TradingTexts
unfolding text_eq routed
on_trading_response route code body s =
    if text_eq route (bytes "/trade/manual/order") || text_eq route (bytes "/trade/manual/cancel")
    then record s { result = routed route code body }
    else if text_eq route (bytes "/credentials/status")
        || text_eq route (bytes "/credentials/update")
    then record s { cred_status = routed route code body }
    else s
