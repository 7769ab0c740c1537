-- ===== src/Client/GridText.antt =====
-- The object that the form for the grid sends, as qt_client/src/pages/strategy_page.cpp builds it, in
-- the hands of the server's readers.
use frog_quant.Prelude.{◌≡◌, refl, ◌∙◌, ap, some, [], ◌∷◌, ◌++◌, Text, bytes, arith}
use mathlib.Core.List.{tail}
use frog_quant.Double.{Double, DoubleText}
use frog_quant.Strings.{find, find_char}
use frog_quant.Strings.Search.{find-skip}
use frog_quant.Strings.Keys.{quote}
use frog_quant.App.Json.{json_get_number, json_get_int}
use frog_quant.App.Json.Numbers.{json_get_number-cut, json_get_int-number, value_of-number}
use frog_quant.Client.{number}
use frog_quant.Client.Strategy.{GridForm, grid_object}
use frog_quant.Client.Wire.{QtJson, compact, more_fields, IsCompact, IsReadBack}

module _ {F : Type 0} (qt : QtJson F) ⦃d : Double F⦄ where
  -- The object behind its second and behind its third key.
  abbrev behind_qty : GridForm F → Text
  unfolding more_fields
  behind_qty f = more_fields qt (
      (bytes "recenter_threshold_ratio", number (f.recenter))
      ∷ (bytes "take_profit_ratio", number (f.take_profit))
      ∷ [])

  abbrev behind_levels : GridForm F → Text
  unfolding quote
  behind_levels f =
      b',' ∷ quote (bytes "order_qty") ++ (b':' ∷ qt.number_text f.order_qty ++ behind_qty f)

  find-levels :
      (f : GridForm F)
      → IsCompact qt
      → find (quote (bytes "levels")) (compact qt (grid_object f))
        ≡ some (
            quote (bytes "levels")
            ++ (b':' ∷ qt.number_text (d.of_int f.levels) ++ behind_levels f))
  unfolding find quote compact more_fields grid_object
  find-levels f h =
      find-skip b'"' (bytes "levels\"") (qt.number_text f.band)
        (more_fields qt (
          (bytes "levels", number (d.of_int f.levels))
          ∷ (bytes "order_qty", number (f.order_qty))
          ∷ (bytes "recenter_threshold_ratio", number (f.recenter))
          ∷ (bytes "take_profit_ratio", number (f.take_profit))
          ∷ []))
        (h.no_quote f.band)

  find-order_qty :
      (f : GridForm F)
      → IsCompact qt
      → find (quote (bytes "order_qty")) (compact qt (grid_object f))
        ≡ some (quote (bytes "order_qty") ++ (b':' ∷ qt.number_text f.order_qty ++ behind_qty f))
  unfolding find quote compact more_fields grid_object
  find-order_qty f h =
      find-skip b'"' (bytes "order_qty\"") (qt.number_text f.band)
        (more_fields qt (
          (bytes "levels", number (d.of_int f.levels))
          ∷ (bytes "order_qty", number (f.order_qty))
          ∷ (bytes "recenter_threshold_ratio", number (f.recenter))
          ∷ (bytes "take_profit_ratio", number (f.take_profit))
          ∷ []))
        (h.no_quote f.band)
      ∙ find-skip b'"' (bytes "order_qty\"") (qt.number_text (d.of_int f.levels)) (behind_levels f)
          (h.no_quote (d.of_int f.levels))

module _ {F : Type 0} (qt : QtJson F) ⦃d : Double F⦄ ⦃t : DoubleText F⦄ where
  pub to_json-grid :
      (f : GridForm F) → IsCompact qt → qt.to_json (grid_object f) ≡ compact qt (grid_object f)
  unfolding grid_object
  to_json-grid f h = h.to_json-plain (grid_object f) (ground arith)

  pub get-levels :
      (f : GridForm F)
      → IsCompact qt
      → IsReadBack qt (d.of_int f.levels)
      → d.to_int (d.of_int f.levels) ≡ f.levels
      → json_get_int d t (compact qt (grid_object f)) (bytes "levels") ≡ some f.levels
  unfolding quote find_char
  get-levels f h shown whole =
      let s = qt.number_text (d.of_int f.levels) in
      let body = compact qt (grid_object f) in
      let at =
        value_of-number body (bytes "levels")
          (quote (bytes "levels") ++ (b':' ∷ s ++ behind_levels qt f)) s (behind_levels qt f)
          (find-levels qt f h) refl shown.plain shown.nonempty in
      json_get_int-number d t body (bytes "levels") (d.of_int f.levels) (
        json_get_number-cut body (bytes "levels") s b',' (tail (behind_levels qt f)) at shown.plain
          shown.nonempty refl
        ∙ shown.reads)
      ∙ ap some whole

  pub get-order_qty :
      (f : GridForm F)
      → IsCompact qt
      → IsReadBack qt f.order_qty
      → json_get_number (compact qt (grid_object f)) (bytes "order_qty") ≡ some f.order_qty
  unfolding quote find_char more_fields
  get-order_qty f h shown =
      let s = qt.number_text f.order_qty in
      let body = compact qt (grid_object f) in
      let at =
        value_of-number body (bytes "order_qty")
          (quote (bytes "order_qty") ++ (b':' ∷ s ++ behind_qty qt f)) s (behind_qty qt f)
          (find-order_qty qt f h) refl shown.plain shown.nonempty in
      json_get_number-cut body (bytes "order_qty") s b',' (tail (behind_qty qt f)) at shown.plain
        shown.nonempty refl
      ∙ shown.reads
