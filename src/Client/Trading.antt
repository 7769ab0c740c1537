-- ===== src/Client/Trading.antt =====
-- qt_client/src/pages/trading_page.cpp: the buttons of `TradingPage`. The symbol is the text of its
-- field as Qt trims it and puts it in upper case.
use frog_quant.Prelude.{
  ℕ, Bool, ◌&&◌, ◌||◌, not, [], ◌∷◌, Text, bytes, if◌then◌else◌, ◌==◌, text_eq,
}
use frog_quant.Double.{Double, nought}
use frog_quant.Strings.{is_empty}
use frog_quant.Client.{
  Click, Object, warned, if_confirmed, number, string, post_manual_order, post_manual_cancel,
  post_credentials_update,
}

pub record OrderForm (F : Type 0) : Type 0 where
  pub symbol : Text
  pub side : Text
  pub type : Text
  pub qty : F
  pub price : F

module _ {F : Type 0} ⦃d : Double F⦄ where
  unfoldable pub is_valid_order : OrderForm F → Bool
  unfolding text_eq
  is_valid_order f =
      not (is_empty f.symbol)
      && ((text_eq f.side (bytes "BUY") || text_eq f.side (bytes "SELL"))
          && ((text_eq f.type (bytes "MARKET") || text_eq f.type (bytes "LIMIT"))
              && (d.lt nought f.qty
                  && (not (text_eq f.type (bytes "LIMIT")) || d.lt nought f.price))))

module _ {F : Type 0} where
  unfoldable pub order_object : OrderForm F → Object F
  order_object f =
      (bytes "price", number f.price)
      ∷ (bytes "qty", number f.qty)
      ∷ (bytes "side", string f.side)
      ∷ (bytes "symbol", string f.symbol)
      ∷ (bytes "type", string f.type)
      ∷ []

module _ {F : Type 0} ⦃d : Double F⦄ where
  unfoldable pub order_clicked : (confirmed : Bool) → OrderForm F → Click F
  unfolding is_valid_order order_object post_manual_order
  order_clicked confirmed f =
      if not (is_valid_order f)
      then warned
      else if_confirmed confirmed (post_manual_order (order_object f))

  unfoldable pub cancel_clicked : (confirmed : Bool) → ℕ → Click F
  unfolding post_manual_cancel
  cancel_clicked confirmed id =
      if id == 0 then warned else if_confirmed confirmed (post_manual_cancel id)

module _ {F : Type 0} where
  unfoldable pub save_clicked : (confirmed : Bool) → Text → Text → Click F
  unfolding post_credentials_update
  save_clicked confirmed api_key secret_key =
      if is_empty api_key || is_empty secret_key
      then warned
      else if_confirmed confirmed (post_credentials_update api_key secret_key)
