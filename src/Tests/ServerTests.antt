-- ===== src/Tests/ServerTests.antt =====
-- The server, the loop of the program, and what the Qt client sends to the server.
use frog_quant.Prelude.{
  ◌∙◌, ℕ, negsuc, ◌==◌, ap, IsDigit, All-mono, show_nat-IsDigit, suc, pos, ◌≡◌, ◌≤◌, ◌+◌, ◌*◌, ◌⊎◌,
  refl, true, false, not, ◌&&◌, ◌||◌, some, [], ◌∷◌, ◌++◌, Text, bytes, show_nat, arith, All, ltb,
}
use frog_quant.Double.Fixed.{
  Fixed, nan, micro, fixed_double, fixed_text, fixed_double-IsOrdered, print, read, read_digits,
}
use frog_quant.Control.{answer}
use frog_quant.App.Server.{router}
use frog_quant.App.RunGuard.{Readings, run_until_stop}
use frog_quant.App.RunGuard.Termination.{run_until_stop-ends}
use frog_quant.App.Json.{value_of}
use frog_quant.Strings.{find, find_char, drop_while, starts_with}
use frog_quant.Strings.Keys.{quote}
use frog_quant.Client.{
  Value, string, boolean, Call, Object, number, sends, post_grid_config, post, post_manual_order,
}
use frog_quant.Client.Strategy.{GridForm, apply_clicked, grid_object, is_valid_form}
use frog_quant.Client.Wire.{
  QtJson, value_text, compact, IsCompact, IsReadBack, more_fields, request_of,
}
use frog_quant.App.Trade.{read_order}
use frog_quant.Client.Trading.{OrderForm, order_clicked, order_object, is_valid_order}
use frog_quant.Client.OrderAccepted.{order_of, order_clicked-accepted}
use frog_quant.Client.Accepted.{apply_clicked-accepted}
use frog_quant.Tests.Inputs.{small_queue}
use frog_quant.Tests.AppTests.{clock, initial}

-- A round takes 300 ms.
abbrev readings : Readings
readings = record { stop_flag = λ i. false; start = 100; clock = λ i. 150 + 300 * i }

run_until_stop-ends_example :
    (k : ℕ) × (run_until_stop (5 * suc 1 + 1) readings (pos (suc 1)) ≡ some k)
    × (k ≤ 5 * suc 1)
    × ((readings.stop_flag k ≡ true) ⊎ (readings.start + suc 1 * 1000 ≤ readings.clock k))
    × ((j : ℕ)
        → (ltb j k
            && (readings.stop_flag j
                || not (ltb (readings.clock j) (readings.start + suc 1 * 1000))))
          ≡ false)
run_until_stop-ends_example = run_until_stop-ends readings 1 (omega arith) (λ i. omega arith)

-- Ten millionths, as Qt prints them.
abbrev small_body : Text
small_body = bytes "{\"order_qty\":1e-05}"

small_value : value_of small_body (bytes "order_qty") ≡ some (bytes "1" ++ b'e' ∷ bytes "-05}")
unfolding value_of quote find find_char drop_while starts_with
small_value = refl

-- The printer of objects of the examples.
abbrev print_value : Value Fixed → Text → Text
unfolding print
print_value (number x) rest = print x ++ rest
print_value (string s) rest = b'"' ∷ (s ++ b'"' ∷ rest)
print_value (boolean true) rest = bytes "true" ++ rest
print_value (boolean false) rest = bytes "false" ++ rest

abbrev print_more : Object Fixed → Text
unfolding quote print_value
print_more [] = bytes "}"
print_more ((key, v) ∷ fields) = b',' ∷ quote key ++ (b':' ∷ print_value v (print_more fields))

abbrev print_json : Object Fixed → Text
unfolding quote print_value print_more
print_json [] = bytes "{}"
print_json ((key, v) ∷ fields) = b'{' ∷ quote key ++ (b':' ∷ print_value v (print_more fields))

abbrev qt : QtJson Fixed
unfolding print print_json
qt = record { number_text = print; to_json = print_json }

print_value_lem : (v : Value Fixed) (rest : Text) → print_value v rest ≡ value_text qt v rest
unfolding print_value qt
print_value_lem (number x) rest = refl
print_value_lem (string s) rest = refl
print_value_lem (boolean true) rest = refl
print_value_lem (boolean false) rest = refl

print_more_lem : (fields : Object Fixed) → print_more fields ≡ more_fields qt fields
unfolding print_more more_fields
print_more_lem [] = refl
print_more_lem ((key, v) ∷ fields) =
    ap (λ s. b',' ∷ quote key ++ (b':' ∷ print_value v s)) (print_more_lem fields)
    ∙ ap (λ s. b',' ∷ quote key ++ (b':' ∷ s)) (print_value_lem v (more_fields qt fields))

print_json_lem : (obj : Object Fixed) → print_json obj ≡ compact qt obj
unfolding print_json compact
print_json_lem [] = refl
print_json_lem ((key, v) ∷ fields) =
    ap (λ s. b'{' ∷ quote key ++ (b':' ∷ print_value v s)) (print_more_lem fields)
    ∙ ap (λ s. b'{' ∷ quote key ++ (b':' ∷ s)) (print_value_lem v (more_fields qt fields))

no_quote-show_nat : (n : ℕ) → All (λ b. (b'"' == b) ≡ false) (show_nat n)
no_quote-show_nat n =
    All-mono IsDigit (λ b. (b'"' == b) ≡ false) (show_nat n) (λ b h. ground arith)
      (show_nat-IsDigit n)

no_quote-print : (x : Fixed) → All (λ b. (b'"' == b) ≡ false) (print x)
unfolding print
no_quote-print nan = ground arith
no_quote-print (micro (pos n)) = no_quote-show_nat n
no_quote-print (micro (negsuc n)) = (refl, no_quote-show_nat (n + 1))

qt-IsCompact : IsCompact qt
unfolding qt
qt-IsCompact = record { no_quote = no_quote-print; to_json-plain = λ obj h. print_json_lem obj }

-- Eight levels of a thousandth each.
abbrev form : GridForm Fixed
form = record {
  levels = pos 8;
  order_qty = fixed_double.lit 1 3;
  take_profit = fixed_double.lit 2 3;
  recenter = fixed_double.lit 4 3;
  band = fixed_double.lit 6 2;
}

abbrev grid_call : Call Fixed
unfolding post_grid_config grid_object post
grid_call = post_grid_config (grid_object form)

form-sends : apply_clicked true form ≡ sends grid_call
unfolding apply_clicked is_valid_form grid_call
form-sends = refl

levels-IsReadBack : IsReadBack qt (fixed_double.of_int (pos 8))
unfolding qt read read_digits print show_nat
levels-IsReadBack = record { plain = ground arith; nonempty = refl; reads = refl }

qty-IsReadBack : IsReadBack qt (fixed_double.lit 1 3)
unfolding qt read read_digits print show_nat
qty-IsReadBack = record { plain = ground arith; nonempty = refl; reads = refl }

apply_clicked-accepted_example :
    let r = answer router clock (request_of qt grid_call) initial in
    (r.1.status ≡ 200)
    × (r.0.grid.cfg.levels ≡ pos 8)
    × (r.0.grid.cfg.order_qty ≡ fixed_double.lit 1 3)
apply_clicked-accepted_example =
    apply_clicked-accepted qt true form grid_call clock initial fixed_double-IsOrdered qt-IsCompact
      levels-IsReadBack qty-IsReadBack refl form-sends

-- An order for one coin at two dollars.
abbrev order_form : OrderForm Fixed
order_form = record {
  symbol = bytes "BTCUSDT";
  side = bytes "SELL";
  type = bytes "LIMIT";
  qty = fixed_double.lit 1 0;
  price = fixed_double.lit 2 0;
}

abbrev order_call : Call Fixed
unfolding post_manual_order order_object post
order_call = post_manual_order (order_object order_form)

order_form-sends : order_clicked true order_form ≡ sends order_call
unfolding order_clicked is_valid_order order_call
order_form-sends = refl

one-IsReadBack : IsReadBack qt (fixed_double.lit 1 0)
unfolding qt read read_digits print show_nat
one-IsReadBack = record { plain = ground arith; nonempty = refl; reads = refl }

two-IsReadBack : IsReadBack qt (fixed_double.lit 2 0)
unfolding qt read read_digits print show_nat
two-IsReadBack = record { plain = ground arith; nonempty = refl; reads = refl }

order_clicked-accepted_example :
    let req = request_of qt order_call in
    (read_order initial.cfg.symbol req.body ≡ order_of order_form)
    × ((answer router clock req initial).1.status ≡ 200)
order_clicked-accepted_example =
    order_clicked-accepted qt true order_form order_call clock initial fixed_double-IsOrdered
      qt-IsCompact (ground arith) one-IsReadBack two-IsReadBack order_form-sends
