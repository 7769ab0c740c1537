-- ===== src/App/RuntimeState.antt =====
-- `save_runtime_state` and `load_runtime_state` of app/app_support.cpp.
pub mod RoundTrip
use frog_quant.Prelude.{
  ℕ, ◌&&◌, ◌||◌, Bool, true, false, Option, none, some, List, [], ◌∷◌, ◌++◌, Text, bytes,
  if◌then◌else◌, ◌==◌, drop, length, get_or_else,
}
use frog_quant.Double.{DoubleText}
use frog_quant.Core.Orders.{RiskConfig}
use frog_quant.Strings.{starts_with, find, before}
use frog_quant.Strings.Keys.{quote, past, is_delimiter}
use frog_quant.App.Format.{show_bool}
use frog_quant.App.Files.{Disk, write_file}

-- The text behind `"key":`.
unfoldable pub field_of : Text → Text → Option Text
unfolding quote find
field_of s key = let token = quote key ++ b':' ∷ [] in past token (find token s)

unfoldable pub find_bool : Text → Text → Bool → Bool
unfolding field_of starts_with
find_bool s key out = elim (field_of s key) [ none ↦ out | some p ↦ starts_with (bytes "true") p ]

module _ {F : Type 0} ⦃t : DoubleText F⦄ where
  -- The number up to a comma or a brace.
  read_number : Option Text → F → F
  read_number none out = out
  read_number (some v) out = get_or_else (t.stod v) out

  unfoldable pub find_num : Text → Text → F → F
  unfolding field_of before read_number
  find_num s key out = elim (field_of s key) [
    | none ↦ out
    | some p ↦ read_number (before is_delimiter p) out
  ]

  unfoldable pub parse_runtime_state : Text → Bool × RiskConfig F → Bool × RiskConfig F
  unfolding find_bool find_num
  parse_runtime_state s (enabled, cfg) = (
    find_bool s (bytes "strategy_enabled") enabled,
    record {
      max_single_order_notional_usd =
          find_num s (bytes "max_single_order_notional_usd") cfg.max_single_order_notional_usd;
      max_position_ratio = find_num s (bytes "max_position_ratio") cfg.max_position_ratio;
      daily_loss_stop_ratio = find_num s (bytes "daily_loss_stop_ratio") cfg.daily_loss_stop_ratio;
    },
  )

  unfoldable pub load_runtime_state :
      Disk → Text → Bool × RiskConfig F → (Bool × RiskConfig F) × Bool
  unfolding parse_runtime_state
  load_runtime_state disk path state = elim (disk.content path) [
    | none ↦ (state, false)
    | some s ↦ (parse_runtime_state s state, true)
  ]

  unfoldable pub runtime_state_text : Bool → RiskConfig F → Text
  runtime_state_text enabled cfg =
      bytes "{\"strategy_enabled\":"
      ++ (show_bool enabled
          ++ (bytes ",\"risk\":{\"max_single_order_notional_usd\":"
              ++ (t.show cfg.max_single_order_notional_usd
                  ++ (bytes ",\"max_position_ratio\":"
                      ++ (t.show cfg.max_position_ratio
                          ++ (bytes ",\"daily_loss_stop_ratio\":"
                              ++ (t.show cfg.daily_loss_stop_ratio ++ bytes "}}")))))))

  unfoldable pub save_runtime_state : Disk → Text → Bool → RiskConfig F → Disk × Bool
  unfolding write_file runtime_state_text
  save_runtime_state disk path enabled cfg = write_file path (runtime_state_text enabled cfg) disk
