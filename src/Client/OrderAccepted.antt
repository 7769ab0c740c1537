-- ===== src/Client/OrderAccepted.antt =====
-- The form for orders on qt_client/src/pages/trading_page.cpp, and what the server makes of what it
-- sends.
use frog_quant.Prelude.{
  ◌≡◌, refl, ◌∙◌, ◌⊎◌, inl, inr, Bool, true, false, ◌||◌, Text, bytes, All, All-mono, arith,
  if◌then◌else◌, text_eq, text_eq_sound, Bool-cases,
}
use frog_quant.Double.{Double, DoubleText, IsOrdered, nought}
use frog_quant.Core.Orders.{OrderRequest, buy, sell, market, limit}
use frog_quant.Logger.{LogQueue}
use frog_quant.Strings.{is_empty}
use frog_quant.Control.{answer}
use frog_quant.App.Context.{ControlApiContext, Clock}
use frog_quant.App.Trade.{post_order, read_order}
use frog_quant.App.Router.{handle, route, obey}
use frog_quant.App.Router.Trades.{post_order-status}
use frog_quant.App.Server.{router}
use frog_quant.Client.{Call, sends, post_manual_order, post}
use frog_quant.Client.Trading.{OrderForm, order_object, order_clicked, is_valid_order}
use frog_quant.Client.Wire.{QtJson, IsCompact, IsReadBack, request_of, is_plain_char}
use frog_quant.Client.OrderText.{
  order_text, compact-order_object, HasSide, HasNoQuote, is_symbol_char, get-side, get-symbol,
  get-type, get-price, get-qty,
}

-- The order that the form asks for.
abbrev pub order_of : {F : Type 0} → OrderForm F → OrderRequest F
unfolding text_eq
order_of f = record {
  symbol = f.symbol;
  side = if text_eq f.side (bytes "SELL") then sell else buy;
  type = if text_eq f.type (bytes "LIMIT") then limit else market;
  qty = f.qty;
  limit_price = f.price;
}

-- What the form's check lets through.
record IsOrder {F : Type 0} ⦃d : Double F⦄ (f : OrderForm F) : Type 0 where
  side : HasSide f.side
  type : (f.type ≡ bytes "MARKET") ⊎ (f.type ≡ bytes "LIMIT")
  symbol : is_empty f.symbol ≡ false
  qty : d.lt nought f.qty ≡ true

one_of : (s a b : Text) → (text_eq s a || text_eq s b) ≡ true → (s ≡ a) ⊎ (s ≡ b)
one_of s a b h = elim (Bool-cases (text_eq s a)) [
  | inl e ↦ inl (text_eq_sound s a e)
  | inr e ↦ inr (text_eq_sound s b (ground arith))
]

module _ {F : Type 0} ⦃d : Double F⦄ where
  is_valid_order-IsOrder : (f : OrderForm F) → is_valid_order f ≡ true → IsOrder f
  unfolding is_valid_order
  is_valid_order-IsOrder f h = record {
    side = one_of f.side (bytes "BUY") (bytes "SELL") (ground arith);
    type = one_of f.type (bytes "MARKET") (bytes "LIMIT") (ground arith);
    symbol = ground arith;
    qty = ground arith;
  }

  order_clicked-sends :
      (confirmed : Bool) (f : OrderForm F) (call : Call F)
      → order_clicked confirmed f ≡ sends call
      → (is_valid_order f ≡ true) × (call ≡ post_manual_order (order_object f))
  unfolding order_clicked
  order_clicked-sends confirmed f call h = ground arith

IsPlainText : Text → Type 0
IsPlainText s = All (λ c. is_plain_char c ≡ true) s

one_of-IsPlainText :
    (s a b : Text) → IsPlainText a → IsPlainText b → (s ≡ a) ⊎ (s ≡ b) → IsPlainText s
one_of-IsPlainText s a b p q (inl e) = rw e p
one_of-IsPlainText s a b p q (inr e) = rw e q

type-HasNoQuote : (s : Text) → (s ≡ bytes "MARKET") ⊎ (s ≡ bytes "LIMIT") → HasNoQuote s
type-HasNoQuote s (inl e) = rw e (ground arith)
type-HasNoQuote s (inr e) = rw e (ground arith)

module _ {F : Type 0} (qt : QtJson F) ⦃d : Double F⦄ where
  -- The text of the order on the wire.
  abbrev wire_text : OrderForm F → Text
  wire_text f = order_text (qt.number_text f.price) (qt.number_text f.qty) f.side f.symbol f.type

  to_json-order :
      (f : OrderForm F)
      → IsCompact qt
      → IsOrder f
      → All (λ c. is_symbol_char c ≡ true) f.symbol
      → qt.to_json (order_object f) ≡ wire_text f
  unfolding order_object IsPlainText
  to_json-order f printer order upper =
      let side =
        one_of-IsPlainText f.side (bytes "BUY") (bytes "SELL") (ground arith) (ground arith)
          order.side in
      let type =
        one_of-IsPlainText f.type (bytes "MARKET") (bytes "LIMIT") (ground arith) (ground arith)
          order.type in
      let symbol : All (λ c. is_plain_char c ≡ true) f.symbol =
        All-mono (λ c. is_symbol_char c ≡ true) (λ c. is_plain_char c ≡ true) f.symbol
          (λ c e. ground arith) upper in
      printer.to_json-plain (order_object f) (
        (ground arith, tt),
        (
          (ground arith, tt),
          ((ground arith, side), ((ground arith, symbol), ((ground arith, type), tt))),
        ),
      )
      ∙ compact-order_object qt f

  read_order-text :
      ⦃t : DoubleText F⦄
      → (f : OrderForm F) (symbol : Text) → IsCompact qt
      → IsOrder f
      → All (λ c. is_symbol_char c ≡ true) f.symbol
      → IsReadBack qt f.qty
      → IsReadBack qt f.price
      → read_order symbol (wire_text f) ≡ order_of f
  unfolding read_order
  read_order-text f symbol printer order upper qty price =
      let p = qt.number_text f.price in
      let q = qt.number_text f.qty in
      let no_p = printer.no_quote f.price in
      let no_q = printer.no_quote f.qty in
      rw
        (
          get-symbol p q f.side f.symbol f.type no_p no_q order.side upper,
          get-side p q f.side f.symbol f.type no_p no_q order.side,
          get-type p q f.side f.symbol f.type no_p no_q order.side upper order.symbol
              (type-HasNoQuote f.type order.type),
          get-qty qt p f.qty f.side f.symbol f.type no_p qty,
          get-price qt f.price q f.side f.symbol f.type price,
        )
        refl

module _ {F : Type 0} where
  body_of-order :
      (qt : QtJson F) (f : OrderForm F)
      → (request_of qt (post_manual_order (order_object f))).body ≡ qt.to_json (order_object f)
  unfolding request_of post_manual_order post
  body_of-order qt f = refl

module _ {F Q : Type 0} ⦃d : Double F⦄ ⦃t : DoubleText F⦄ ⦃q : LogQueue F Q⦄ where
  answer_order :
      (qt : QtJson F) (clock : Clock) (ctx : ControlApiContext F Q) (f : OrderForm F)
      → answer router clock (request_of qt (post_manual_order (order_object f))) ctx
        ≡ post_order clock (qt.to_json (order_object f)) ctx
  unfolding answer router handle route obey request_of post_manual_order post
  answer_order qt clock ctx f = refl

  accepted :
      (clock : Clock) (body : Text) (ctx : ControlApiContext F Q) (f : OrderForm F)
      → IsOrdered F
      → d.lt nought f.qty ≡ true
      → read_order {F = F} ctx.cfg.symbol body ≡ order_of f
      → (post_order clock body ctx).1.status ≡ 200
  unfolding order_of
  accepted clock body ctx f ordered positive e =
      let above : d.le f.qty nought ≡ false = ground (
        arith,
        positive,
        ordered.le_of_lt nought f.qty,
        ordered.le-number nought f.qty,
        ordered.lt-eq-not-le nought f.qty,
      ) in
      post_order-status clock body ctx ∙ rw (e, above) refl

  -- What the button for orders sends, if it sends anything, the server answers with 200, and the
  -- order that it reads is the form's: if the symbol is plain text without small letters, Qt
  -- prints the quantity and the price as plain decimals that are read back and objects compactly,
  -- and doubles compare as in IEEE 754.
  pub order_clicked-accepted :
      (qt : QtJson F) (confirmed : Bool) (f : OrderForm F) (call : Call F) (clock : Clock)
      (ctx : ControlApiContext F Q)
      → IsOrdered F
      → IsCompact qt
      → All (λ c. is_symbol_char c ≡ true) f.symbol
      → IsReadBack qt f.qty
      → IsReadBack qt f.price
      → order_clicked confirmed f ≡ sends call
      → let req = request_of qt call in
        (read_order ctx.cfg.symbol req.body ≡ order_of f)
        × ((answer router clock req ctx).1.status ≡ 200)
  order_clicked-accepted qt confirmed f call clock ctx ordered printer upper qty price h =
      let sent = order_clicked-sends confirmed f call h in
      let order = is_valid_order-IsOrder f sent.0 in
      let read = read_order-text qt f ctx.cfg.symbol printer order upper qty price in
      rw
        (
          sent.1,
          answer_order qt clock ctx f,
          body_of-order qt f,
          to_json-order qt f printer order upper,
        )
        (read, accepted clock (wire_text qt f) ctx f ordered order.qty read)
