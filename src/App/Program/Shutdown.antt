-- ===== src/App/Program/Shutdown.antt =====
-- The end of main.cpp: what the joins guarantee.
use frog_quant.Prelude.{◌≡◌, refl, ap, ◌∙◌, subst, List, [], ◌∷◌}
use frog_quant.Double.{Double, DoubleText}
use frog_quant.Logger.{LogQueue}
use frog_quant.Market.Service.{Service, is_polling}
use frog_quant.Market.Service
use frog_quant.App.Context.{ControlApiContext}
use frog_quant.App.Server.{router}
use frog_quant.App.Program.{
  Program, Action, main_moves, ws_tests, rest_tests, ws_handles, rest_handles, closes, is_handling,
  heard, fetched, next, server_tests, server_throws, connects, reads, fetches, accepts, receives,
  joined, step, run, launch,
}
use frog_quant.App.Program.Gone.{
  heard-gone, fetched-gone, next-returned, test-gone, throw-gone, accept-gone, read-gone,
  step-joined,
}
use frog_quant.App.Program.Stages.{
  ServiceAt, ServerAt, HandlersAt, IsOrderly, step-ServiceAt, keep-HandlersAt, if-ServiceAt,
  called-HandlersAt, phase-ServerAt, main_step-IsOrderly, launch-IsOrderly,
}

module _ {F Q : Type 0} ⦃d : Double F⦄ ⦃t : DoubleText F⦄ ⦃q : LogQueue F Q⦄ where
  pub step-IsOrderly : (p : Program F Q) (a : Action F) → IsOrderly p → IsOrderly (step p a)
  unfolding step
  step-IsOrderly p main_moves o = main_step-IsOrderly p.stage p refl o
  step-IsOrderly p ws_tests o = record {
    service =
        if-ServiceAt p.stage (is_handling p.ws_handling) p.service _ o.service
          (step-ServiceAt p.stage p.service Service.ws_tests tt o.service);
    handlers = o.handlers;
    server = o.server;
  }
  step-IsOrderly p rest_tests o = record {
    service =
        if-ServiceAt p.stage (is_handling p.rest_handling) p.service _ o.service
          (step-ServiceAt p.stage p.service Service.rest_tests tt o.service);
    handlers = o.handlers;
    server = o.server;
  }
  step-IsOrderly p closes o = record {
    service = step-ServiceAt p.stage p.service Service.closes tt o.service;
    handlers = o.handlers;
    server = o.server;
  }
  step-IsOrderly p (connects opened) o = record {
    service = step-ServiceAt p.stage p.service (Service.connects opened) tt o.service;
    handlers = o.handlers;
    server = o.server;
  }
  step-IsOrderly p (reads clock now message) o = record {
    service = step-ServiceAt p.stage p.service (Service.reads now message) tt o.service;
    handlers =
        (called-HandlersAt p.stage p.service clock (heard message now p.service.ws) p.ws_handling
          p.rest_handling (λ gone. heard-gone message now p.service.ws gone.no_ws) o.service
          o.handlers).0;
    server = o.server;
  }
  step-IsOrderly p (fetches clock m) o = record {
    service = step-ServiceAt p.stage p.service (Service.fetches m) tt o.service;
    handlers =
        (called-HandlersAt p.stage p.service clock (fetched m p.service.rest) p.ws_handling
          p.rest_handling (λ gone. fetched-gone m p.service.rest gone.no_rest) o.service
          o.handlers).1;
    server = o.server;
  }
  step-IsOrderly p ws_handles o = record {
    service = o.service;
    handlers =
        keep-HandlersAt p.stage _ (next p.ws_handling) _ p.rest_handling
          (λ back. (next-returned p.ws_handling back.0 ∙ back.0, back.1)) o.handlers;
    server = o.server;
  }
  step-IsOrderly p rest_handles o = record {
    service = o.service;
    handlers =
        keep-HandlersAt p.stage _ p.ws_handling _ (next p.rest_handling)
          (λ back. (back.0, next-returned p.rest_handling back.1 ∙ back.1)) o.handlers;
    server = o.server;
  }
  step-IsOrderly p server_tests o = record {
    service = o.service;
    handlers = o.handlers;
    server =
        phase-ServerAt p.stage p.server.running p.server.phase _
          (test-gone p.server.running p.server.phase) o.server;
  }
  step-IsOrderly p server_throws o = record {
    service = o.service;
    handlers = o.handlers;
    server =
        phase-ServerAt p.stage p.server.running p.server.phase _ (throw-gone p.server.phase)
          o.server;
  }
  step-IsOrderly p (accepts outcome) o = record {
    service = o.service;
    handlers = o.handlers;
    server =
        phase-ServerAt p.stage p.server.running p.server.phase _
          (accept-gone outcome p.server.phase) o.server;
  }
  step-IsOrderly p (receives outcome) o = record {
    service = o.service;
    handlers = o.handlers;
    server =
        phase-ServerAt p.stage p.server.running p.server.phase _
          (λ gone. ap (λ r. r.0) (read-gone router outcome p.server.phase (p.ctx, p.answers) gone))
          o.server;
  }

  pub run-IsOrderly :
      (p : Program F Q) (acts : List (Action F)) → IsOrderly p → IsOrderly (run p acts)
  unfolding run
  run-IsOrderly p [] o = o
  run-IsOrderly p (a ∷ acts) o = run-IsOrderly (step p a) acts (step-IsOrderly p a o)

  joined-stays :
      (p : Program F Q) (acts : List (Action F)) → p.stage ≡ joined → IsOrderly p → run p acts ≡ p
  unfolding run
  joined-stays p [] at o = refl
  joined-stays p (a ∷ acts) at o =
      let same =
        step-joined p a at (subst (λ s. ServiceAt s p.service) at o.service)
          (subst (λ s. HandlersAt s p.ws_handling p.rest_handling) at o.handlers)
          (subst (λ s. ServerAt s p.server.running p.server.phase) at o.server).1 in
      ap (λ p'. run p' acts) same ∙ joined-stays p acts at o

  -- Once `main` is behind its joins, whatever happened before, nothing that the network, the clock
  -- or a client brings changes anything any more: no order, no event and no answer is lost or added
  -- while `main` takes the shared objects apart.
  pub joined-stays_joined :
      (ctx : ControlApiContext F Q) (before after : List (Action F))
      → (run (launch ctx) before).stage ≡ joined
      → run (run (launch ctx) before) after ≡ run (launch ctx) before
  joined-stays_joined ctx before after at =
      joined-stays (run (launch ctx) before) after at
        (run-IsOrderly (launch ctx) before (launch-IsOrderly ctx))
