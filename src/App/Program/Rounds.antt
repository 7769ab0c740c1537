-- ===== src/App/Program/Rounds.antt =====
-- A round of each thread of main.cpp, on its way out: one outcome of each call that it may be in.
use frog_quant.Prelude.{
  ℕ, ◌≡◌, refl, ap, ◌∙◌, false, Option, none, some, List, [], ◌∷◌, ◌++◌, Text, arith,
}
use frog_quant.Double.{Double, DoubleText}
use frog_quant.Logger.{LogQueue}
use frog_quant.Core.Orders.{MarketTick}
use frog_quant.Market.Service.{Service, is_polling}
use frog_quant.Market.Service
use frog_quant.Market.Joins.{Opening}
use frog_quant.Control.{Request, Response, Handler}
use frog_quant.Control.Lifecycle.{
  Server, Accept, nobody, failed, connection, absent, testing, accepting, reading, left,
}
use frog_quant.Control.Lifecycle
use frog_quant.App.Context.{Clock}
use frog_quant.App.Server.{router}
use frog_quant.App.Program.{
  Program, Action, main_moves, ws_tests, rest_tests, ws_handles, rest_handles, closes, Handling,
  returned, counting, stamping, pricing, planning, is_handling, next, server_tests, connects, reads,
  fetches, accepts, receives, step, run,
}

module _ {E S : Type 0} (handler : Handler E S) where
  -- What accepting and reading bring leads back to the test of the flag.
  server-ends :
      (outcome : Accept) (req : Option (E × Request)) (p : Lifecycle.Phase) (st : S × List Response)
      → Lifecycle.is_present
          (Lifecycle.test false (Lifecycle.read handler req (Lifecycle.accept outcome p) st).0)
        ≡ false
  unfolding Lifecycle.test Lifecycle.read Lifecycle.accept
  server-ends nobody none p st = ground arith
  server-ends failed none p st = ground arith
  server-ends connection none p st = ground arith
  server-ends nobody (some r) p st = ground arith
  server-ends failed (some r) p st = ground arith
  server-ends connection (some r) p st = ground arith

module _ {F : Type 0} where
  -- Four turns of a thread in the tick handler.
  abbrev pub ws_returns : List (Action F)
  ws_returns = ws_handles ∷ ws_handles ∷ ws_handles ∷ ws_handles ∷ []

  abbrev pub rest_returns : List (Action F)
  rest_returns = rest_handles ∷ rest_handles ∷ rest_handles ∷ rest_handles ∷ []

  abbrev opens_and_reads : Opening → Clock → ℕ → Option Text → List (Action F)
  opens_and_reads o clock now message =
      connects o.resolves
      ∷ connects o.links
      ∷ connects o.secures
      ∷ connects o.upgrades
      ∷ reads clock now message
      ∷ ws_returns

  -- One outcome of each call into the network that a thread of the market may be in, the turns of the
  -- tick handler, and the tests of the flags.
  abbrev pub market_round :
      Opening → Clock → ℕ → Option Text → Option (MarketTick F) → List (Action F)
  market_round o clock now message m =
      opens_and_reads o clock now message
      ++ ws_tests ∷ closes ∷ ws_tests ∷ fetches clock m ∷ rest_returns
      ++ rest_tests ∷ []

  abbrev pub server_round : Accept → Option (Clock × Request) → List (Action F)
  server_round outcome req = accepts outcome ∷ receives req ∷ server_tests ∷ []

  -- The rest of `main`, with one outcome of each call.
  abbrev pub closing :
      Opening
      → Clock
      → ℕ
      → Option Text
      → Option (MarketTick F)
      → Accept
      → Option (Clock × Request)
      → List (Action F)
  closing o clock now message m outcome req =
      main_moves ∷ market_round o clock now message m
      ++ main_moves ∷ server_round outcome req
      ++ main_moves ∷ []

module _ {F : Type 0} where
  -- Four turns lead out of the tick handler from wherever a thread is in it.
  next-returns : (h : Handling F) → is_handling (next (next (next (next h)))) ≡ false
  unfolding next
  next-returns returned = refl
  next-returns (counting clock m) = refl
  next-returns (stamping clock m) = refl
  next-returns (pricing clock m) = refl
  next-returns (planning clock m) = refl

module _ {F Q : Type 0} ⦃d : Double F⦄ ⦃t : DoubleText F⦄ ⦃q : LogQueue F Q⦄ where
  pub run-append_program :
      (p : Program F Q) (xs ys : List (Action F)) → run p (xs ++ ys) ≡ run (run p xs) ys
  unfolding run
  run-append_program p [] ys = refl
  run-append_program p (x ∷ xs) ys = run-append_program (step p x) xs ys

  -- The calls that open the stream, a read, and the tick handler.
  stream-run :
      (p : Program F Q) (o : Opening) (clock : Clock) (now : ℕ) (message : Option Text)
      → let p' = run p (opens_and_reads o clock now message) in
        (p'.stage ≡ p.stage)
        × (p'.server ≡ p.server)
        × (is_handling p'.ws_handling ≡ false)
        × (p'.service
            ≡ Service.run p.service (
                Service.connects o.resolves
                ∷ Service.connects o.links
                ∷ Service.connects o.secures
                ∷ Service.connects o.upgrades
                ∷ Service.reads now message
                ∷ []))
  unfolding run step Service.run
  stream-run p o clock now message = (refl, refl, next-returns _, refl)

  -- The tests of the flags, and the close between them.
  close-run :
      (p : Program F Q)
      → is_handling p.ws_handling ≡ false
      → let p' = run p (ws_tests ∷ closes ∷ ws_tests ∷ []) in
        (p'.stage ≡ p.stage)
        × (p'.server ≡ p.server)
        × (is_handling p'.ws_handling ≡ false)
        × (p'.service
            ≡ Service.run p.service (Service.ws_tests ∷ Service.closes ∷ Service.ws_tests ∷ []))
  unfolding run step Service.run
  close-run p h = (refl, refl, h, rw h refl)

  -- A fetch, the tick handler, and the test of the flag.
  fetch-run :
      (p : Program F Q) (clock : Clock) (m : Option (MarketTick F))
      → is_handling p.ws_handling ≡ false
      → let p' = run p (fetches clock m ∷ rest_returns ++ rest_tests ∷ []) in
        (p'.stage ≡ p.stage)
        × (p'.server ≡ p.server)
        × (is_handling p'.ws_handling ≡ false)
        × (is_handling p'.rest_handling ≡ false)
        × (p'.service ≡ Service.run p.service (Service.fetches m ∷ Service.rest_tests ∷ []))
  unfolding run step Service.run
  fetch-run p clock m h = (refl, refl, h, next-returns _, rw (next-returns _) refl)

  -- The rounds as turns of the program.
  pub market_round-run :
      (p : Program F Q) (o : Opening) (clock : Clock) (now : ℕ) (message : Option Text)
      (m : Option (MarketTick F))
      → let p' = run p (market_round o clock now message m) in
        (p'.stage ≡ p.stage)
        × (p'.server ≡ p.server)
        × (is_handling p'.ws_handling ≡ false)
        × (is_handling p'.rest_handling ≡ false)
        × (p'.service
            ≡ Service.run p.service (
                Service.connects o.resolves
                ∷ Service.connects o.links
                ∷ Service.connects o.secures
                ∷ Service.connects o.upgrades
                ∷ Service.reads now message
                ∷ Service.ws_tests
                ∷ Service.closes
                ∷ Service.ws_tests
                ∷ Service.fetches m
                ∷ Service.rest_tests
                ∷ []))
  unfolding run Service.run
  market_round-run p o clock now message m =
      let p1 = run p (opens_and_reads o clock now message) in
      let p2 = run p1 (ws_tests ∷ closes ∷ ws_tests ∷ []) in
      let opened = stream-run p o clock now message in
      let closed = close-run p1 opened.2 in
      let fetched = fetch-run p2 clock m closed.2 in
      (
        fetched.0 ∙ closed.0 ∙ opened.0,
        fetched.1 ∙ closed.1 ∙ opened.1,
        fetched.2,
        fetched.3,
        fetched.4
            ∙ ap (λ s. Service.run s (Service.fetches m ∷ Service.rest_tests ∷ []))
                (closed.3
                  ∙ ap
                      (λ s.
                        Service.run s (Service.ws_tests ∷ Service.closes ∷ Service.ws_tests ∷ []))
                      opened.3),
      )

  pub server_round-run :
      (p : Program F Q) (outcome : Accept) (req : Option (Clock × Request))
      → let p' = run p (server_round outcome req) in
        (p'.stage ≡ p.stage)
        × (p'.server.phase
            ≡ Lifecycle.test p.server.running
                (Lifecycle.read router req
                  (Lifecycle.accept outcome p.server.phase)
                  (p.ctx, p.answers)).0)
  unfolding run step
  server_round-run p outcome req = (refl, refl)

  pub server_round-gone :
      (p : Program F Q) (outcome : Accept) (req : Option (Clock × Request))
      → p.server.running ≡ false
      → Lifecycle.is_present (run p (server_round outcome req)).server.phase ≡ false
  server_round-gone p outcome req off =
      rw ((server_round-run p outcome req).1, off)
        (server-ends router outcome req p.server.phase (p.ctx, p.answers))
