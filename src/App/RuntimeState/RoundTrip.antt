-- ===== src/App/RuntimeState/RoundTrip.antt =====
-- A saved runtime state is read back.
use frog_quant.Prelude.{
  ◌≡◌, refl, ap, ◌∙◌, Bool, true, false, some, ◌∷◌, ◌++◌, Text, bytes, ◌==◌, All, arith, ℕ, drop,
}
use frog_quant.Double.{DoubleText}
use frog_quant.Core.Orders.{RiskConfig}
use frog_quant.Strings.{find}
use frog_quant.Strings.Keys.{past, is_delimiter}
use frog_quant.Strings.Search.{find-skip, before-append}
use frog_quant.App.Files.{Disk}
use frog_quant.App.RuntimeState.{
  field_of, find_bool, find_num, parse_runtime_state, load_runtime_state, runtime_state_text,
  save_runtime_state,
}
use frog_quant.App.Files.Written.{write_file-content}

abbrev max_position_ratio : Text
max_position_ratio = bytes "\"max_position_ratio\":"

abbrev daily_loss_stop_ratio : Text
daily_loss_stop_ratio = bytes "\"daily_loss_stop_ratio\":"

module _ {F : Type 0} (t : DoubleText F) where
  -- A number that reads back from its text, which has no quote, comma or brace in it.
  pub record IsShown (x : F) : Type 0 where
    pub reads : t.stod (t.show x) ≡ some x
    pub no_quote : All (λ b. (b'"' == b) ≡ false) (t.show x)
    pub no_delimiter : All (λ b. is_delimiter b ≡ false) (t.show x)

  -- The search for a key passes over a number.
  skip :
      (token : Text) (x : F) (rest : Text)
      → IsShown x
      → find (b'"' ∷ token) (t.show x ++ rest) ≡ find (b'"' ∷ token) rest
  skip token x rest h = find-skip b'"' token (t.show x) rest h.no_quote

  find_num-shown :
      (s key : Text) (x : F) (c : ℕ) (rest : Text) (out : F)
      → IsShown x
      → is_delimiter c ≡ true
      → field_of s key ≡ some (t.show x ++ c ∷ rest)
      → find_num ⦃t = t⦄ s key out ≡ x
  unfolding find_num
  find_num-shown s key x c rest out h e at =
      ground (arith, before-append is_delimiter (t.show x) c rest h.no_delimiter e, h.reads, at)

  -- Each field of the text.
  find_bool-text :
      (enabled : Bool) (cfg : RiskConfig F) (out : Bool)
      → find_bool (runtime_state_text ⦃t = t⦄ enabled cfg) (bytes "strategy_enabled") out ≡ enabled
  unfolding find_bool runtime_state_text
  find_bool-text true cfg out = refl
  find_bool-text false cfg out = refl

  -- The text from each number on.
  abbrev from_loss : RiskConfig F → Text
  from_loss cfg = t.show cfg.daily_loss_stop_ratio ++ bytes "}}"

  abbrev from_ratio : RiskConfig F → Text
  from_ratio cfg =
      t.show cfg.max_position_ratio ++ (bytes ",\"daily_loss_stop_ratio\":" ++ from_loss cfg)

  abbrev from_notional : RiskConfig F → Text
  from_notional cfg =
      t.show cfg.max_single_order_notional_usd
      ++ (bytes ",\"max_position_ratio\":" ++ from_ratio cfg)

  field_of-notional :
      (enabled : Bool) (cfg : RiskConfig F)
      → field_of (runtime_state_text ⦃t = t⦄ enabled cfg) (bytes "max_single_order_notional_usd")
        ≡ some (from_notional cfg)
  unfolding field_of runtime_state_text
  field_of-notional true cfg = refl
  field_of-notional false cfg = refl

  field_of-ratio :
      (enabled : Bool) (cfg : RiskConfig F)
      → IsShown cfg.max_single_order_notional_usd
      → field_of (runtime_state_text ⦃t = t⦄ enabled cfg) (bytes "max_position_ratio")
        ≡ some (from_ratio cfg)
  unfolding field_of runtime_state_text
  field_of-ratio true cfg h = ap (past max_position_ratio) (
      skip (drop 1 max_position_ratio) cfg.max_single_order_notional_usd
        (bytes ",\"max_position_ratio\":" ++ from_ratio cfg) h)
  field_of-ratio false cfg h = ap (past max_position_ratio) (
      skip (drop 1 max_position_ratio) cfg.max_single_order_notional_usd
        (bytes ",\"max_position_ratio\":" ++ from_ratio cfg) h)

  field_of-loss :
      (enabled : Bool) (cfg : RiskConfig F)
      → IsShown cfg.max_single_order_notional_usd
      → IsShown cfg.max_position_ratio
      → field_of (runtime_state_text ⦃t = t⦄ enabled cfg) (bytes "daily_loss_stop_ratio")
        ≡ some (from_loss cfg)
  unfolding field_of runtime_state_text
  field_of-loss true cfg h k = ap (past daily_loss_stop_ratio) (
      skip (drop 1 daily_loss_stop_ratio) cfg.max_single_order_notional_usd
        (bytes ",\"max_position_ratio\":" ++ from_ratio cfg) h
      ∙ skip (drop 1 daily_loss_stop_ratio) cfg.max_position_ratio
          (bytes ",\"daily_loss_stop_ratio\":" ++ from_loss cfg) k)
  field_of-loss false cfg h k = ap (past daily_loss_stop_ratio) (
      skip (drop 1 daily_loss_stop_ratio) cfg.max_single_order_notional_usd
        (bytes ",\"max_position_ratio\":" ++ from_ratio cfg) h
      ∙ skip (drop 1 daily_loss_stop_ratio) cfg.max_position_ratio
          (bytes ",\"daily_loss_stop_ratio\":" ++ from_loss cfg) k)

  parse_runtime_state-text :
      (enabled : Bool) (cfg : RiskConfig F) (old : Bool × RiskConfig F)
      → IsShown cfg.max_single_order_notional_usd
      → IsShown cfg.max_position_ratio
      → IsShown cfg.daily_loss_stop_ratio
      → parse_runtime_state ⦃t = t⦄ (runtime_state_text ⦃t = t⦄ enabled cfg) old ≡ (enabled, cfg)
  unfolding parse_runtime_state
  parse_runtime_state-text enabled cfg old h1 h2 h3 =
      let s = runtime_state_text ⦃t = t⦄ enabled cfg in
      rw
        (
          find_bool-text enabled cfg old.0,
          find_num-shown s (bytes "max_single_order_notional_usd") cfg.max_single_order_notional_usd
              b',' (bytes "\"max_position_ratio\":" ++ from_ratio cfg)
              old.1.max_single_order_notional_usd h1 refl (field_of-notional enabled cfg),
          find_num-shown s (bytes "max_position_ratio") cfg.max_position_ratio b','
              (bytes "\"daily_loss_stop_ratio\":" ++ from_loss cfg) old.1.max_position_ratio h2 refl
              (field_of-ratio enabled cfg h1),
          find_num-shown s (bytes "daily_loss_stop_ratio") cfg.daily_loss_stop_ratio b'}'
              (bytes "}") old.1.daily_loss_stop_ratio h3 refl (field_of-loss enabled cfg h1 h2),
        )
        refl

  load_runtime_state-text :
      (disk : Disk) (path : Text) (enabled : Bool) (cfg : RiskConfig F) (old : Bool × RiskConfig F)
      → IsShown cfg.max_single_order_notional_usd
      → IsShown cfg.max_position_ratio
      → IsShown cfg.daily_loss_stop_ratio
      → disk.content path ≡ some (runtime_state_text ⦃t = t⦄ enabled cfg)
      → load_runtime_state ⦃t = t⦄ disk path old ≡ ((enabled, cfg), true)
  unfolding load_runtime_state
  load_runtime_state-text disk path enabled cfg old h1 h2 h3 e =
      ground (arith, parse_runtime_state-text enabled cfg old h1 h2 h3)

  -- The runtime state that is saved to a file that can be written is what is loaded from it
  -- afterwards, whatever the state was before, if each of the three limits reads back from its
  -- text and no quote, comma or brace stands in the text.
  pub load-save_runtime_state :
      (disk : Disk) (path : Text) (enabled : Bool) (cfg : RiskConfig F) (old : Bool × RiskConfig F)
      → disk.is_writable path ≡ true
      → IsShown cfg.max_single_order_notional_usd
      → IsShown cfg.max_position_ratio
      → IsShown cfg.daily_loss_stop_ratio
      → load_runtime_state ⦃t = t⦄ (save_runtime_state ⦃t = t⦄ disk path enabled cfg).0 path old
        ≡ ((enabled, cfg), true)
  unfolding save_runtime_state
  load-save_runtime_state disk path enabled cfg old w h1 h2 h3 =
      load_runtime_state-text (save_runtime_state ⦃t = t⦄ disk path enabled cfg).0 path enabled cfg
        old h1 h2 h3 (write_file-content disk path (runtime_state_text ⦃t = t⦄ enabled cfg) w)
