-- ===== src/App/Program/Joins.antt =====
-- That the joins at the end of main.cpp return.
use frog_quant.Prelude.{ℕ, ◌≡◌, refl, ap, ◌∙◌, subst, false, Option, List, [], ◌∷◌, ◌++◌, Text}
use frog_quant.Double.{Double, DoubleText}
use frog_quant.Logger.{LogQueue}
use frog_quant.Core.Orders.{MarketTick}
use frog_quant.Market.Service.{Service, is_polling}
use frog_quant.Market.Service
use frog_quant.Market.Joins.{Opening, stopped-threads_end}
use frog_quant.Control.{Request}
use frog_quant.Control.Lifecycle.{
  Server, Accept, nobody, failed, connection, absent, testing, accepting, reading, left,
}
use frog_quant.Control.Lifecycle
use frog_quant.App.Context.{ControlApiContext, Clock}
use frog_quant.App.Program.{
  Program, Action, main_moves, is_handling, running, joining_service, joining_server, joined,
  main_step, step, run, launch,
}
use frog_quant.App.Program.Shutdown.{run-IsOrderly}
use frog_quant.App.Program.Stages.{ServiceAt, stop-flags, stop-server, launch-IsOrderly}
use frog_quant.App.Program.Rounds.{
  market_round, server_round, closing, run-append_program, market_round-run, server_round-run,
  server_round-gone,
}

module _ {F Q : Type 0} ⦃d : Double F⦄ ⦃t : DoubleText F⦄ ⦃q : LogQueue F Q⦄ where
  leave :
      (p : Program F Q)
      → p.stage ≡ running
      → step p main_moves ≡ record p { stage = joining_service; service = Service.stop p.service }
  unfolding step main_step
  leave p at = rw at refl

  join_service :
      (p : Program F Q)
      → p.stage ≡ joining_service
      → Service.is_present p.service.ws ≡ false
      → is_polling p.service.rest ≡ false
      → is_handling p.ws_handling ≡ false
      → is_handling p.rest_handling ≡ false
      → step p main_moves ≡ record p { stage = joining_server; server = Lifecycle.stop p.server }
  unfolding step main_step
  join_service p at ws rest h k = rw (at, ws, rest, h, k) refl

  join_server :
      (p : Program F Q)
      → p.stage ≡ joining_server
      → Lifecycle.is_present p.server.phase ≡ false
      → step p main_moves ≡ record p { stage = joined }
  unfolding step main_step
  join_server p at gone = rw (at, gone) refl

  -- From the join of the service on.
  joins :
      (p : Program F Q) (o : Opening) (clock : Clock) (now : ℕ) (message : Option Text)
      (m : Option (MarketTick F)) (outcome : Accept) (req : Option (Clock × Request))
      → p.stage ≡ joining_service
      → p.service.running ≡ false
      → p.service.ws_running ≡ false
      → (run p (
          market_round o clock now message m
          ++ main_moves ∷ server_round outcome req
          ++ main_moves ∷ [])).stage
        ≡ joined
  unfolding run
  joins p o clock now message m outcome req at off ws_off =
      let p1 = run p (market_round o clock now message m) in
      let market = market_round-run p o clock now message m in
      let ended = stopped-threads_end p.service o now message m off ws_off in
      let behind_service =
        join_service p1 (market.0 ∙ at) (ap (λ s. Service.is_present s.ws) market.4 ∙ ended.0)
          (ap (λ s. is_polling s.rest) market.4 ∙ ended.1) market.2 market.3 in
      let p2 : Program F Q = record p1 {
        stage = joining_server;
        server = Lifecycle.stop p1.server;
      } in
      let gone = server_round-gone p2 outcome req (stop-server p1.server) in
      let behind_server =
        join_server (run p2 (server_round outcome req)) (server_round-run p2 outcome req).0 gone in
      ap (λ x. (run x (server_round outcome req ++ main_moves ∷ [])).stage) behind_service
      ∙ ap (λ x. x.stage) behind_server

  -- From `run_until_stop` on.
  leaves :
      (p : Program F Q) (o : Opening) (clock : Clock) (now : ℕ) (message : Option Text)
      (m : Option (MarketTick F)) (outcome : Accept) (req : Option (Clock × Request))
      → p.stage ≡ running
      → p.service.ws_running ≡ p.service.running
      → (run p (closing o clock now message m outcome req)).stage ≡ joined
  unfolding run
  leaves p o clock now message m outcome req at e =
      let p' : Program F Q = record p {
        stage = joining_service;
        service = Service.stop p.service;
      } in
      let off = stop-flags p.service e in
      ap
        (λ x.
          (run x (
            market_round o clock now message m
            ++ main_moves ∷ server_round outcome req
            ++ main_moves ∷ [])).stage)
        (leave p at)
      ∙ joins p' o clock now message m outcome req refl off.0 off.1

  pub shutdown-ends :
      (ctx : ControlApiContext F Q) (before : List (Action F)) (o : Opening) (clock : Clock)
      (now : ℕ) (message : Option Text) (m : Option (MarketTick F)) (outcome : Accept)
      (req : Option (Clock × Request))
      → (run (launch ctx) before).stage ≡ running
      → (run (launch ctx) (before ++ closing o clock now message m outcome req)).stage ≡ joined
  shutdown-ends ctx before o clock now message m outcome req at =
      ap (λ p. p.stage)
        (run-append_program (launch ctx) before (closing o clock now message m outcome req))
      ∙ leaves (run (launch ctx) before) o clock now message m outcome req at (
          subst (λ s. ServiceAt s (run (launch ctx) before).service) at
            (run-IsOrderly (launch ctx) before (launch-IsOrderly ctx)).service)
