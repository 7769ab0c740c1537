-- ===== src/Market/Stopping.antt =====
-- The calls of the handler after `stop`.
use frog_quant.Prelude.{
  ℕ, ◌+◌, ◌≤◌, ◌≡◌, refl, Bool, false, Option, none, some, List, [], ◌∷◌, Text, arith, All, length,
  length-append,
}
use frog_quant.Double.{DoubleText}
use frog_quant.Core.Orders.{MarketTick}
use frog_quant.Market.Trades.{parse_trade_json}
use frog_quant.Market.Service.{
  Service, Action, Phase, Polling, checking, fetching, testing, resolving, connecting, securing,
  upgrading, connected, waiting, closing, closes, starts, stops, ws_tests, rest_tests, connects,
  reads, fetches, called, new_service, start, stop, step, run, ws_test, ws_connect, ws_close,
  ws_read, rest_test, rest_fetch,
}

-- The calls that a thread may still make once its flag is down.
abbrev pending : Phase → ℕ
pending waiting = 1
pending _ = 0

abbrev fetches_left : Polling → ℕ
fetches_left fetching = 1
fetches_left _ = 0

module _ {F : Type 0} where
  abbrev IsNoStart : Action F → Type 0
  IsNoStart starts = ⊥
  IsNoStart _ = Unit

  -- The calls so far and those that may still come.
  abbrev budget : Service F → ℕ
  budget s = length s.ticks + pending s.ws + fetches_left s.rest

  record IsDown (s : Service F) : Type 0 where
    running : s.running ≡ false
    ws_running : s.ws_running ≡ false

  -- The two flags go together.
  record AreEqual (s : Service F) : Type 0 where
    flags : s.ws_running ≡ s.running

  length-called :
      (m : Option (MarketTick F)) (ms : List (MarketTick F)) → length (called m ms) ≤ length ms + 1
  length-called none ms = omega arith
  length-called (some m) ms = omega (arith, length-append ms (m ∷ []))

module _ {F : Type 0} ⦃t : DoubleText F⦄ where
  ws_read-budget :
      (now : ℕ) (message : Option Text) (p : Phase) (s : Service F)
      → s.ws ≡ p
      → budget (ws_read now message p s) ≤ budget s
  unfolding ws_read
  ws_read-budget now (some json) waiting s e =
      ground (arith, length-called (parse_trade_json now json) s.ticks)
  ws_read-budget now none waiting s e = ground arith
  ws_read-budget now message p s e = omega arith

  ws_test-budget :
      (p : Phase) (s : Service F) → s.ws ≡ p → IsDown s → budget (ws_test p s) ≤ budget s
  unfolding ws_test
  ws_test-budget testing s e h = ground arith
  ws_test-budget connected s e h = ground arith
  ws_test-budget p s e h = omega arith

  ws_connect-budget :
      (opened : Bool) (p : Phase) (s : Service F)
      → s.ws ≡ p
      → budget (ws_connect opened p s) ≤ budget s
  unfolding ws_connect
  ws_connect-budget opened resolving s e = ground arith
  ws_connect-budget opened connecting s e = ground arith
  ws_connect-budget opened securing s e = ground arith
  ws_connect-budget opened upgrading s e = ground arith
  ws_connect-budget opened p s e = omega arith

  ws_close-budget : (p : Phase) (s : Service F) → s.ws ≡ p → budget (ws_close p s) ≤ budget s
  unfolding ws_close
  ws_close-budget closing s e = ground arith
  ws_close-budget p s e = omega arith

  rest_test-budget :
      (p : Polling) (s : Service F) → s.rest ≡ p → IsDown s → budget (rest_test p s) ≤ budget s
  unfolding rest_test
  rest_test-budget checking s e h = ground arith
  rest_test-budget p s e h = omega arith

  rest_fetch-budget :
      (m : Option (MarketTick F)) (p : Polling) (s : Service F)
      → s.rest ≡ p
      → budget (rest_fetch m p s) ≤ budget s
  unfolding rest_fetch
  rest_fetch-budget m fetching s e = ground (arith, length-called m s.ticks)
  rest_fetch-budget m p s e = omega arith

  -- Once the flags are down, they stay down, and no action adds to the budget.
  step-IsDown :
      (s : Service F) (a : Action F)
      → IsNoStart a
      → IsDown s
      → IsDown (step s a) × (budget (step s a) ≤ budget s)
  unfolding step ws_test ws_connect ws_close ws_read rest_test rest_fetch stop
  step-IsDown s starts quiet h = absurd quiet
  step-IsDown s stops quiet h = (ground arith, ground arith)
  step-IsDown s ws_tests quiet h = (ground arith, ws_test-budget s.ws s refl h)
  step-IsDown s rest_tests quiet h = (ground arith, rest_test-budget s.rest s refl h)
  step-IsDown s closes quiet h = (ground arith, ws_close-budget s.ws s refl)
  step-IsDown s (connects opened) quiet h = (ground arith, ws_connect-budget opened s.ws s refl)
  step-IsDown s (reads now message) quiet h = (ground arith, ws_read-budget now message s.ws s refl)
  step-IsDown s (fetches m) quiet h = (ground arith, rest_fetch-budget m s.rest s refl)

  run-IsDown :
      (s : Service F) (acts : List (Action F))
      → All IsNoStart acts
      → IsDown s
      → IsDown (run s acts) × (budget (run s acts) ≤ budget s)
  unfolding run
  run-IsDown s [] quiet h = (h, omega arith)
  run-IsDown s (a ∷ acts) quiet h =
      let one = step-IsDown s a quiet.0 h in
      let more = run-IsDown (step s a) acts quiet.1 one.0 in (more.0, omega (arith, one.1, more.1))

  -- Flags that go together do so after any action.
  step-AreEqual : (s : Service F) (a : Action F) → AreEqual s → AreEqual (step s a)
  unfolding step ws_test ws_connect ws_close ws_read rest_test rest_fetch stop start
  step-AreEqual s a h = ground arith

  run-AreEqual : (s : Service F) (acts : List (Action F)) → AreEqual s → AreEqual (run s acts)
  unfolding run
  run-AreEqual s [] h = h
  run-AreEqual s (a ∷ acts) h = run-AreEqual (step s a) acts (step-AreEqual s a h)

  stop-IsDown : (s : Service F) → AreEqual s → IsDown (stop s)
  unfolding stop
  stop-IsDown s h = ground arith

  stop-budget : (s : Service F) → budget (stop s) ≤ length s.ticks + 2
  unfolding stop
  stop-budget s = ground arith

  -- From a new service, after any actions and then `stop`, the handler is called at most twice
  -- more until `start`, whatever the network does.
  pub stop-calls :
      (before after : List (Action F))
      → All IsNoStart after
      → let s = run new_service before in length (run (stop s) after).ticks ≤ length s.ticks + 2
  unfolding new_service stop
  stop-calls before after quiet =
      let s = run (new_service {F = F}) before in
      let down = stop-IsDown s (run-AreEqual new_service before (record { flags = refl })) in
      omega (arith, (run-IsDown (stop s) after quiet down).1, stop-budget s)
