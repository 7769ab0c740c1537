-- ===== src/Execution/Query.antt =====
-- The query of an order as the exchange reads it.
use frog_quant.Prelude.{
  ℕ, ◌≡◌, refl, ◌∙◌, ap, false, Option, Option-cases, inl, inr, none, some, List, [], ◌∷◌, ◌++◌,
  Text, bytes, show_nat, IsDigit, show_nat-IsDigit, All-mono, All-append, ◌==◌, arith, All,
}
use frog_quant.Double.{DoubleText}
use frog_quant.Core.Orders.{OrderSide, OrderType, buy, sell, market, limit}
use frog_quant.Strings.Split.{Lacks}
use frog_quant.Execution.{
  PlaceOrder, order_query, price_part, id_part, stamped, side_to_str, type_to_str,
}
use frog_quant.Execution.Fields.{
  Field, IsPlain, encode, encode_rest, parse_query, parse_query-encode, literal,
}

-- The exchange's words for the side and the type of an order.
abbrev pub side_text : OrderSide → Text
side_text buy = bytes "BUY"
side_text sell = bytes "SELL"

abbrev pub type_text : OrderType → Text
type_text market = bytes "MARKET"
type_text limit = bytes "LIMIT"

abbrev pub id_fields : Text → List Field
id_fields [] = []
id_fields (c ∷ id) = (bytes "newClientOrderId", c ∷ id) ∷ []

abbrev pub last_fields : ℕ → List Field
last_fields now = (bytes "timestamp", show_nat now) ∷ (bytes "recvWindow", bytes "5000") ∷ []

side_to_str_lem : (side : OrderSide) → side_to_str side ≡ side_text side
unfolding side_to_str
side_to_str_lem buy = refl
side_to_str_lem sell = refl

type_to_str_lem : (type : OrderType) → type_to_str type ≡ type_text type
unfolding type_to_str
type_to_str_lem market = refl
type_to_str_lem limit = refl

module _ {F : Type 0} ⦃t : DoubleText F⦄ where
  abbrev pub price_fields : OrderType → Option F → List Field
  price_fields limit (some p) =
      (bytes "timeInForce", bytes "GTC") ∷ (bytes "price", t.show_fixed 2 p) ∷ []
  price_fields limit none = []
  price_fields market price = []

  abbrev pub more_fields : ℕ → PlaceOrder F → List Field
  more_fields now o =
      (bytes "side", side_text o.side)
      ∷ (bytes "type", type_text o.type)
      ∷ (bytes "quantity", t.show_fixed 6 o.qty)
      ∷ (price_fields o.type o.price ++ (id_fields o.client_order_id ++ last_fields now))

  -- The fields that an order asks for.
  abbrev pub order_fields : ℕ → PlaceOrder F → List Field
  order_fields now o = (bytes "symbol", o.symbol) ∷ more_fields now o

  -- The pieces of the query from the price on.
  price_part-fields :
      (now : ℕ) (type : OrderType) (price : Option F) (id rest : Text)
      → price_part type price (id_part id (stamped now)) ≡ some rest
      → price_part type price (id_part id (stamped now))
        ≡ some (encode_rest (price_fields type price ++ (id_fields id ++ last_fields now)))
  unfolding price_part id_part stamped encode_rest
  price_part-fields now market price [] rest h = refl
  price_part-fields now market price (c ∷ id) rest h = refl
  price_part-fields now limit none id rest h = cc
  price_part-fields now limit (some p) [] rest h = refl
  price_part-fields now limit (some p) (c ∷ id) rest h = refl

  encode-order_fields :
      (now : ℕ) (o : PlaceOrder F) (query : Text)
      → order_query now o ≡ some query
      → query ≡ encode (bytes "symbol", o.symbol) (more_fields now o)
  unfolding order_query encode
  encode-order_fields now o query h =
      elim (Option-cases (price_part o.type o.price (id_part o.client_order_id (stamped now)))) [
        | inl e ↦ ground arith
        | inr (rest, e) ↦ ground (
          arith,
          price_part-fields now o.type o.price o.client_order_id rest e,
          side_to_str_lem o.side,
          type_to_str_lem o.type,
        )
      ]

-- The fixed text of a number has no ampersand.
abbrev pub HasPlainNumbers : {F : Type 0} → DoubleText F → Type 0
HasPlainNumbers {F} t = (precision : ℕ) (x : F) → Lacks b'&' (t.show_fixed precision x)

pub Lacks-show_nat : (n : ℕ) → Lacks b'&' (show_nat n)
Lacks-show_nat n =
    All-mono IsDigit (λ b. (b == b'&') ≡ false) (show_nat n) (λ b h. ground arith)
      (show_nat-IsDigit n)

id_fields-IsPlain : (id : Text) → Lacks b'&' id → All IsPlain (id_fields id)
id_fields-IsPlain [] h = tt
id_fields-IsPlain (c ∷ id) h = (literal (bytes "newClientOrderId") (c ∷ id) refl h, tt)

last_fields-IsPlain : (now : ℕ) → All IsPlain (last_fields now)
last_fields-IsPlain now = (
  literal (bytes "timestamp") (show_nat now) refl (Lacks-show_nat now),
  (literal (bytes "recvWindow") (bytes "5000") refl (ground arith), tt),
)

Lacks-side_text : (side : OrderSide) → Lacks b'&' (side_text side)
Lacks-side_text buy = ground arith
Lacks-side_text sell = ground arith

Lacks-type_text : (type : OrderType) → Lacks b'&' (type_text type)
Lacks-type_text market = ground arith
Lacks-type_text limit = ground arith

module _ {F : Type 0} ⦃t : DoubleText F⦄ where
  price_fields-IsPlain :
      (type : OrderType) (price : Option F)
      → HasPlainNumbers t
      → All IsPlain (price_fields type price)
  price_fields-IsPlain market price plain = tt
  price_fields-IsPlain limit none plain = tt
  price_fields-IsPlain limit (some p) plain = (
    literal (bytes "timeInForce") (bytes "GTC") refl (ground arith),
    (literal (bytes "price") (t.show_fixed 2 p) refl (plain 2 p), tt),
  )

  more_fields-IsPlain :
      (now : ℕ) (o : PlaceOrder F)
      → HasPlainNumbers t
      → Lacks b'&' o.client_order_id
      → All IsPlain (more_fields now o)
  unfolding more_fields
  more_fields-IsPlain now o plain h =
      let last =
        All-append IsPlain (id_fields o.client_order_id) (last_fields now)
          (id_fields-IsPlain o.client_order_id h) (last_fields-IsPlain now) in
      (
        literal (bytes "side") (side_text o.side) refl (Lacks-side_text o.side),
        (
          literal (bytes "type") (type_text o.type) refl (Lacks-type_text o.type),
          (
            literal (bytes "quantity") (t.show_fixed 6 o.qty) refl (plain 6 o.qty),
            All-append IsPlain (price_fields o.type o.price)
                (id_fields o.client_order_id ++ last_fields now)
                (price_fields-IsPlain o.type o.price plain) last,
          ),
        ),
      )

  -- The query of an order whose symbol and client order id have no ampersand in them is split, at
  -- the ampersands and at the first equals sign of each piece, into these fields: the symbol, the
  -- side as BUY or SELL, the type as MARKET or LIMIT, the quantity with six decimals, for a limit
  -- order GTC and its price with two, the client order id unless it is empty, the time and a window
  -- of 5000. Nothing is decoded: a percent or plus sign counts as itself. This needs that no
  -- number's text has an ampersand.
  pub parse_query-order_query :
      (now : ℕ) (o : PlaceOrder F) (query : Text)
      → HasPlainNumbers t
      → order_query now o ≡ some query
      → Lacks b'&' o.symbol
      → Lacks b'&' o.client_order_id
      → parse_query query ≡ order_fields now o
  parse_query-order_query now o query plain e h k =
      ap parse_query (encode-order_fields now o query e)
      ∙ parse_query-encode (bytes "symbol", o.symbol) (more_fields now o)
          (literal (bytes "symbol") o.symbol refl h) (more_fields-IsPlain now o plain k)
