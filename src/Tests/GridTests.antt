-- ===== src/Tests/GridTests.antt =====
-- The grid of the program's own strategy test: six levels around 100.
use frog_quant.Prelude.{ℕ, ◌≡◌, ◌⊎◌, inr, refl, true, none, some, List, [], ◌∷◌, arith, pos, length}
use frog_quant.Double.Fixed.{Fixed, fixed_double, fixed_double-IsOrdered}
use frog_quant.Core.Orders.{buy, sell, limit}
use frog_quant.Grid.{
  LongGridConfig, LongGridStrategy, GridLevel, StrategyOrderIntent, new_strategy, on_price_tick,
  on_buy_filled, recenter, has_drifted,
}
use frog_quant.Grid.Choice.{IsQuiet, BuysAt, on_price_tick_lem}
use frog_quant.Grid.Fills.{Life, fill_round_trip, recenter_forgets}
use frog_quant.Grid.Validity
use frog_quant.Grid.Validity.{
  HasDefaults, IsSane, IsValid, sanitize_config-IsSane, new-run-IsValid, run, handle,
}
use frog_quant.Tests.Inputs.{usd}

abbrev lit : ℕ → ℕ → Fixed
lit = fixed_double.lit

abbrev cfg : LongGridConfig Fixed
cfg = record {
  levels = pos 6;
  order_qty = lit 1 0;
  take_profit_ratio = lit 1 2;
  dynamic_enabled = true;
  recenter_threshold_ratio = lit 1 2;
  band_ratio = lit 1 1;
}

abbrev start : LongGridStrategy Fixed
start = (on_price_tick (new_strategy cfg) (usd 100)).0

abbrev buy_at_101 : StrategyOrderIntent Fixed
buy_at_101 = record { side = buy; type = limit; qty = usd 1; price = usd 101; grid_id = 4 }

-- The first tick anchors six levels from 95 to 105 and buys at 101, the closest level above.
first_buy :
    ((on_price_tick (new_strategy cfg) (usd 100)).1 ≡ buy_at_101 ∷ []) × (length start.levels ≡ 6)
unfolding on_price_tick new_strategy has_drifted
first_buy = (refl, refl)

-- Its fill sells at 102.01.
first_sale :
    (on_buy_filled start 4).1
    ≡ some (record { side = sell; type = limit; qty = usd 1; price = lit 10201 2; grid_id = 4 })
unfolding on_price_tick new_strategy has_drifted on_buy_filled
first_sale = refl

on_price_tick_lem_example :
    let s' = recenter (new_strategy cfg) (usd 100) in
    IsQuiet s' (usd 100) (on_price_tick (new_strategy cfg) (usd 100))
    ⊎ ((c : GridLevel Fixed) × BuysAt s' (usd 100) c (on_price_tick (new_strategy cfg) (usd 100)))
unfolding new_strategy
on_price_tick_lem_example =
    on_price_tick_lem fixed_double-IsOrdered (new_strategy cfg) (usd 100) refl tt

fill_round_trip_example : Life (recenter (new_strategy cfg) (usd 100)) start buy_at_101
unfolding on_price_tick new_strategy has_drifted
fill_round_trip_example =
    fill_round_trip fixed_double-IsOrdered (new_strategy cfg) (usd 100) buy_at_101 refl tt refl

-- At 110 the grid is built anew, and the order at level 4 is forgotten.
recenter_forgets_example : (on_buy_filled (on_price_tick start (usd 110)).0 3).1 ≡ none
unfolding on_price_tick new_strategy has_drifted
recenter_forgets_example =
    recenter_forgets fixed_double-IsOrdered start (usd 110) 3 refl (omega arith) refl (omega arith)

fixed_double-HasDefaults : HasDefaults Fixed
fixed_double-HasDefaults = ground arith

abbrev session : List (Validity.Event Fixed)
session =
    Validity.ticks (usd 100)
    ∷ Validity.buy_fills 4
    ∷ Validity.ticks (usd 110)
    ∷ Validity.sell_fills 4
    ∷ Validity.updates cfg
    ∷ []

new-run-IsValid_example : IsValid (run (new_strategy cfg) session)
new-run-IsValid_example =
    new-run-IsValid fixed_double-HasDefaults cfg session
      (inr refl, (tt, (inr refl, (tt, (tt, tt)))))
