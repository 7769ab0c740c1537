-- ===== src/Market/Joins.antt =====
-- Whether the threads of the service leave once `stop` has put the flags down, as its joins need.
use frog_quant.Prelude.{
  ℕ, ◌≡◌, refl, ap, ◌∙◌, Bool, false, Option, none, some, List, [], ◌∷◌, Text, arith, All,
}
use frog_quant.Double.{DoubleText}
use frog_quant.Core.Orders.{MarketTick}
use frog_quant.Market.Service.{
  Service, Action, Phase, Polling, unstarted, checking, fetching, ended, is_polling, absent,
  testing, connecting, connected, waiting, left, starts, stops, ws_tests, rest_tests, closes,
  resolving, securing, upgrading, closing, connects, reads, fetches, is_present, start, stop, step,
  run, ws_test, ws_connect, ws_close, ws_read, rest_test, rest_fetch,
}

-- The outcomes of the four calls that open the stream.
pub record Opening : Type 0 where
  pub resolves : Bool
  pub links : Bool
  pub secures : Bool
  pub upgrades : Bool

module _ {F : Type 0} where
  abbrev IsNoRead : Action F → Type 0
  IsNoRead (reads now message) = ⊥
  IsNoRead _ = Unit

  abbrev IsOfStream : Action F → Type 0
  IsOfStream starts = ⊥
  IsOfStream stops = ⊥
  IsOfStream rest_tests = ⊥
  IsOfStream (fetches m) = ⊥
  IsOfStream _ = Unit

module _ {F : Type 0} ⦃t : DoubleText F⦄ where
  -- The way out of the WebSocket thread: one outcome of each call that opens the stream, of a read
  -- and of the close, and the tests of the two flags.
  ws_round : Opening → ℕ → Option Text → Service F → Service F
  ws_round o now message s = run s (
      connects o.resolves
      ∷ connects o.links
      ∷ connects o.secures
      ∷ connects o.upgrades
      ∷ reads now message
      ∷ ws_tests
      ∷ closes
      ∷ ws_tests
      ∷ [])

  ws_round-ends :
      (o : Opening) (now : ℕ) (message : Option Text) (p : Phase) (s : Service F)
      → s.ws ≡ p
      → s.ws_running ≡ false
      → is_present (ws_round o now message s).ws ≡ false
  unfolding ws_round run step ws_test ws_connect ws_read ws_close
  ws_round-ends o now none absent s e h = ground arith
  ws_round-ends o now (some json) absent s e h = ground arith
  ws_round-ends o now none testing s e h = ground arith
  ws_round-ends o now (some json) testing s e h = ground arith
  ws_round-ends o now none resolving s e h = ground arith
  ws_round-ends o now (some json) resolving s e h = ground arith
  ws_round-ends o now none connecting s e h = ground arith
  ws_round-ends o now (some json) connecting s e h = ground arith
  ws_round-ends o now none securing s e h = ground arith
  ws_round-ends o now (some json) securing s e h = ground arith
  ws_round-ends o now none upgrading s e h = ground arith
  ws_round-ends o now (some json) upgrading s e h = ground arith
  ws_round-ends o now none connected s e h = ground arith
  ws_round-ends o now (some json) connected s e h = ground arith
  ws_round-ends o now none waiting s e h = ground arith
  ws_round-ends o now (some json) waiting s e h = ground arith
  ws_round-ends o now none closing s e h = ground arith
  ws_round-ends o now (some json) closing s e h = ground arith
  ws_round-ends o now none left s e h = ground arith
  ws_round-ends o now (some json) left s e h = ground arith

  -- What the WebSocket thread does leaves the other thread and the service's flag.
  step-rest :
      (s : Service F) (a : Action F)
      → IsOfStream a
      → ((step s a).rest ≡ s.rest) × ((step s a).running ≡ s.running)
  unfolding step ws_test ws_connect ws_close ws_read
  step-rest s ws_tests h = ground arith
  step-rest s closes h = ground arith
  step-rest s (connects opened) h = ground arith
  step-rest s (reads now none) h = ground arith
  step-rest s (reads now (some json)) h = ground arith
  step-rest s _ h = absurd h

  ws_round-rest :
      (o : Opening) (now : ℕ) (message : Option Text) (s : Service F)
      → ((ws_round o now message s).rest ≡ s.rest)
        × ((ws_round o now message s).running ≡ s.running)
  unfolding ws_round run
  ws_round-rest o now message s =
      let s1 = step s (connects o.resolves) in
      let s2 = step s1 (connects o.links) in
      let s3 = step s2 (connects o.secures) in
      let s4 = step s3 (connects o.upgrades) in
      let s5 = step s4 (reads now message) in
      let s6 = step s5 ws_tests in
      let s7 = step s6 closes in
      let k1 = step-rest s (connects o.resolves) tt in
      let k2 = step-rest s1 (connects o.links) tt in
      let k3 = step-rest s2 (connects o.secures) tt in
      let k4 = step-rest s3 (connects o.upgrades) tt in
      let k5 = step-rest s4 (reads now message) tt in
      let k6 = step-rest s5 ws_tests tt in
      let k7 = step-rest s6 closes tt in
      let k8 = step-rest s7 ws_tests tt in
      (
        k8.0 ∙ k7.0 ∙ k6.0 ∙ k5.0 ∙ k4.0 ∙ k3.0 ∙ k2.0 ∙ k1.0,
        k8.1 ∙ k7.1 ∙ k6.1 ∙ k5.1 ∙ k4.1 ∙ k3.1 ∙ k2.1 ∙ k1.1,
      )

  -- One round of the REST thread.
  rest_round : Option (MarketTick F) → Service F → Service F
  rest_round m s = let s1 = rest_fetch m s.rest s in rest_test s1.rest s1

  rest_round-ends :
      (m : Option (MarketTick F)) (p : Polling) (s : Service F)
      → s.rest ≡ p
      → s.running ≡ false
      → (is_polling (rest_round m s).rest ≡ false) × ((rest_round m s).ws ≡ s.ws)
  unfolding rest_round rest_fetch rest_test
  rest_round-ends m unstarted s e h = ground arith
  rest_round-ends m checking s e h = ground arith
  rest_round-ends m fetching s e h = ground arith
  rest_round-ends m ended s e h = ground arith

  -- Where the flags are down, one outcome of each call into the network and the tests between them
  -- end both threads, for which the joins of `stop` wait.
  pub stopped-threads_end :
      (s : Service F) (o : Opening) (now : ℕ) (message : Option Text) (m : Option (MarketTick F))
      → s.running ≡ false
      → s.ws_running ≡ false
      → let s' = run s (
          connects o.resolves
          ∷ connects o.links
          ∷ connects o.secures
          ∷ connects o.upgrades
          ∷ reads now message
          ∷ ws_tests
          ∷ closes
          ∷ ws_tests
          ∷ fetches m
          ∷ rest_tests
          ∷ []) in
        (is_present s'.ws ≡ false) × (is_polling s'.rest ≡ false)
  unfolding run step ws_round rest_round
  stopped-threads_end s o now message m h k =
      let s1 = ws_round o now message s in
      let kept = ws_round-rest o now message s in
      let polled = rest_round-ends m s1.rest s1 refl (kept.1 ∙ h) in
      (ap is_present polled.1 ∙ ws_round-ends o now message s.ws s refl k, polled.0)

  step-waits :
      (s : Service F) (a : Action F) → IsNoRead a → s.ws ≡ waiting → (step s a).ws ≡ waiting
  unfolding step ws_test ws_connect ws_close ws_read rest_test rest_fetch stop start
  step-waits s starts quiet h = ground arith
  step-waits s stops quiet h = ground arith
  step-waits s ws_tests quiet h = ground arith
  step-waits s rest_tests quiet h = ground arith
  step-waits s closes quiet h = ground arith
  step-waits s (connects opened) quiet h = ground arith
  step-waits s (reads now message) quiet h = absurd quiet
  step-waits s (fetches m) quiet h = ground arith

  run-waits :
      (s : Service F) (acts : List (Action F))
      → All IsNoRead acts
      → s.ws ≡ waiting
      → (run s acts).ws ≡ waiting
  unfolding run
  run-waits s [] quiet h = h
  run-waits s (a ∷ acts) quiet h = run-waits (step s a) acts quiet.1 (step-waits s a quiet.0 h)

  -- The WebSocket thread that waits for a message when `stop` is called waits on, whatever else
  -- happens, until a read returns: `stop` hangs on a stream that is open and silent.
  pub stop-waits :
      (s : Service F) (acts : List (Action F))
      → s.ws ≡ waiting
      → All IsNoRead acts
      → (run (stop s) acts).ws ≡ waiting
  unfolding step
  stop-waits s acts h quiet = run-waits (stop s) acts quiet (step-waits s stops tt h)
