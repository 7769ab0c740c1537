-- ===== src/App/Program/Stages.antt =====
-- What holds of the threads of main.cpp at each stage of the main thread.
use frog_quant.Prelude.{
  ◌≡◌, refl, ap, ◌∙◌, sym, subst, if◌then◌else◌, Bool, true, false, ◌||◌, none, some, Option, arith,
}
use frog_quant.Double.{DoubleText}
use frog_quant.Market.Service.{Service, is_polling}
use frog_quant.Market.Service
use frog_quant.Control.Lifecycle.{Server, Accept, nobody}
use frog_quant.Control.Lifecycle
use frog_quant.App.Context.{ControlApiContext, Clock}
use frog_quant.Core.Orders.{MarketTick}
use frog_quant.App.Program.{
  Program, Handling, returned, is_handling, market_remains, called, Stage, running, joining_service,
  joining_server, joined, main_step, launch,
}
use frog_quant.App.Program.Gone.{IsQuiet, IsThread, HaveReturned, called-gone, step-IsQuiet}

module _ {F : Type 0} where
  -- What holds of the service at a stage.
  abbrev pub ServiceAt : Stage → Service F → Type 0
  ServiceAt running s = s.ws_running ≡ s.running
  ServiceAt joining_service s = (s.running ≡ false) × (s.ws_running ≡ false)
  ServiceAt joining_server s = IsQuiet s
  ServiceAt joined s = IsQuiet s

abbrev pub ServerAt : Stage → Bool → Lifecycle.Phase → Type 0
ServerAt running on phase = Unit
ServerAt joining_service on phase = Unit
ServerAt joining_server on phase = on ≡ false
ServerAt joined on phase = (on ≡ false) × (Lifecycle.is_present phase ≡ false)

module _ {F : Type 0} where
  abbrev pub HandlersAt : Stage → Handling F → Handling F → Type 0
  HandlersAt running ws rest = Unit
  HandlersAt joining_service ws rest = Unit
  HandlersAt joining_server ws rest = HaveReturned ws rest
  HandlersAt joined ws rest = HaveReturned ws rest

  returned_if : (h : Handling F) → is_handling h ≡ false → h ≡ returned
  returned_if returned e = refl
  returned_if _ e = cc

  pub keep-HandlersAt :
      (at : Stage) (ws ws' rest rest' : Handling F)
      → (HaveReturned ws rest → HaveReturned ws' rest')
      → HandlersAt at ws rest
      → HandlersAt at ws' rest'
  keep-HandlersAt running ws ws' rest rest' f h = tt
  keep-HandlersAt joining_service ws ws' rest rest' f h = tt
  keep-HandlersAt joining_server ws ws' rest rest' f h = f h
  keep-HandlersAt joined ws ws' rest rest' f h = f h

module _ {F Q : Type 0} where
  -- The flags and the threads are as the stage of the main thread has them.
  pub record IsOrderly (p : Program F Q) : Type 0 where
    pub service : ServiceAt p.stage p.service
    pub handlers : HandlersAt p.stage p.ws_handling p.rest_handling
    pub server : ServerAt p.stage p.server.running p.server.phase

module _ {F : Type 0} ⦃t : DoubleText F⦄ where
  step-flags :
      (s : Service F) (a : Service.Action F)
      → IsThread a
      → ((Service.step s a).running ≡ s.running) × ((Service.step s a).ws_running ≡ s.ws_running)
  unfolding Service.step Service.ws_test Service.ws_connect Service.ws_close Service.rest_test
      Service.rest_fetch Service.ws_read
  step-flags s Service.starts h = absurd h
  step-flags s Service.stops h = absurd h
  step-flags s Service.ws_tests h = ground arith
  step-flags s Service.rest_tests h = ground arith
  step-flags s Service.closes h = ground arith
  step-flags s (Service.connects opened) h = ground arith
  step-flags s (Service.reads now none) h = ground arith
  step-flags s (Service.reads now (some m)) h = ground arith
  step-flags s (Service.fetches m) h = ground arith

  pub step-ServiceAt :
      (at : Stage) (s : Service F) (a : Service.Action F)
      → IsThread a
      → ServiceAt at s
      → ServiceAt at (Service.step s a)
  step-ServiceAt running s a h e = let f = step-flags s a h in f.1 ∙ e ∙ sym f.0
  step-ServiceAt joining_service s a h e = let f = step-flags s a h in (f.0 ∙ e.0, f.1 ∙ e.1)
  step-ServiceAt joining_server s a h e = rw (step-IsQuiet s a h e) e
  step-ServiceAt joined s a h e = rw (step-IsQuiet s a h e) e

pub if-ServiceAt :
    {F : Type 0} (at : Stage) (b : Bool) (s s' : Service F)
    → ServiceAt at s
    → ServiceAt at s'
    → ServiceAt at (if b then s else s')
if-ServiceAt at true s s' h h' = h
if-ServiceAt at false s s' h h' = h'

-- A thread that has left calls no handler.
pub called-HandlersAt :
    {F : Type 0} (at : Stage) (s : Service F) (clock : Clock) (m : Option (MarketTick F))
    (ws rest : Handling F)
    → (IsQuiet s → m ≡ none)
    → ServiceAt at s
    → HandlersAt at ws rest
    → HandlersAt at (called clock m ws) rest × HandlersAt at ws (called clock m rest)
called-HandlersAt running s clock m ws rest f sv h = (tt, tt)
called-HandlersAt joining_service s clock m ws rest f sv h = (tt, tt)
called-HandlersAt joining_server s clock m ws rest f sv (h, k) =
    ((called-gone clock m ws (f sv) ∙ h, k), (h, called-gone clock m rest (f sv) ∙ k))
called-HandlersAt joined s clock m ws rest f sv (h, k) =
    ((called-gone clock m ws (f sv) ∙ h, k), (h, called-gone clock m rest (f sv) ∙ k))

pub phase-ServerAt :
    (at : Stage) (on : Bool) (p p' : Lifecycle.Phase)
    → (Lifecycle.is_present p ≡ false → p' ≡ p)
    → ServerAt at on p
    → ServerAt at on p'
phase-ServerAt running on p p' gone e = tt
phase-ServerAt joining_service on p p' gone e = tt
phase-ServerAt joining_server on p p' gone e = e
phase-ServerAt joined on p p' gone e = (e.0, ap Lifecycle.is_present (gone e.1) ∙ e.1)

module _ {F : Type 0} where
  pub stop-flags :
      (s : Service F)
      → s.ws_running ≡ s.running
      → ((Service.stop s).running ≡ false) × ((Service.stop s).ws_running ≡ false)
  unfolding Service.stop
  stop-flags s e = ground arith

  quiet :
      (s : Service F)
      → (s.running ≡ false) × (s.ws_running ≡ false)
      → (Service.is_present s.ws || is_polling s.rest) ≡ false
      → IsQuiet s
  quiet s off gone = record {
    running = off.0;
    ws_running = off.1;
    no_ws = ground arith;
    no_rest = ground arith;
  }

pub stop-server : (s : Server) → (Lifecycle.stop s).running ≡ false
unfolding Lifecycle.stop
stop-server s = ground arith

module _ {F Q : Type 0} where
  end_service :
      (b : Bool) (p : Program F Q)
      → market_remains p ≡ b
      → (p.service.running ≡ false) × (p.service.ws_running ≡ false)
      → IsOrderly p
      → IsOrderly
          (if b then p else record p { stage = joining_server; server = Lifecycle.stop p.server })
  end_service true p e off o = o
  end_service false p e off o = record {
    service = quiet p.service off (ground (arith, e));
    handlers = (
      returned_if p.ws_handling (ground (arith, e)),
      returned_if p.rest_handling (ground (arith, e)),
    );
    server = stop-server p.server;
  }

  end_server :
      (b : Bool) (p : Program F Q)
      → Lifecycle.is_present p.server.phase ≡ b
      → IsQuiet p.service
      → HaveReturned p.ws_handling p.rest_handling
      → p.server.running ≡ false
      → IsOrderly p
      → IsOrderly (if b then p else record p { stage = joined })
  end_server true p e gone back off o = o
  end_server false p e gone back off o = record {
    service = gone;
    handlers = back;
    server = (off, e);
  }

  pub main_step-IsOrderly :
      (at : Stage) (p : Program F Q) → p.stage ≡ at → IsOrderly p → IsOrderly (main_step at p)
  unfolding main_step
  main_step-IsOrderly running p e o = record {
    service = stop-flags p.service (subst (λ s. ServiceAt s p.service) e o.service);
    handlers = tt;
    server = tt;
  }
  main_step-IsOrderly joining_service p e o =
      end_service (market_remains p) p refl (subst (λ s. ServiceAt s p.service) e o.service) o
  main_step-IsOrderly joining_server p e o =
      end_server (Lifecycle.is_present p.server.phase) p refl
        (subst (λ s. ServiceAt s p.service) e o.service)
        (subst (λ s. HandlersAt s p.ws_handling p.rest_handling) e o.handlers)
        (subst (λ s. ServerAt s p.server.running p.server.phase) e o.server) o
  main_step-IsOrderly joined p e o = o

  pub launch-IsOrderly : (ctx : ControlApiContext F Q) → IsOrderly (launch ctx)
  unfolding launch Service.start Service.new_service
  launch-IsOrderly ctx = record { service = refl; handlers = tt; server = tt }
