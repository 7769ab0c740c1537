-- ===== src/App/Program/Gone.antt =====
-- The threads of main.cpp that have left: none of their turns changes anything.
use frog_quant.Prelude.{ℕ, ◌≡◌, refl, ap, Bool, false, Option, none, some, List, Text}
use frog_quant.Double.{Double, DoubleText}
use frog_quant.Logger.{LogQueue}
use frog_quant.Core.Orders.{MarketTick}
use frog_quant.Market.Service.{Service, is_polling}
use frog_quant.Market.Service
use frog_quant.Control
use frog_quant.Control.{Request, Response}
use frog_quant.Control.Lifecycle.{Server, Accept, nobody}
use frog_quant.Control.Lifecycle
use frog_quant.App.Context.{ControlApiContext, Clock}
use frog_quant.App.Server.{router}
use frog_quant.App.Program.{
  Program, Action, main_moves, ws_tests, rest_tests, ws_handles, rest_handles, closes, Handling,
  returned, is_handling, called, next, handled, server_tests, server_throws, connects, reads,
  fetches, accepts, receives, Stage, joined, main_step, heard, fetched, step,
}

module _ {F : Type 0} where
  -- The market's threads have been told to leave, and have left.
  pub record IsQuiet (s : Service F) : Type 0 where
    pub running : s.running ≡ false
    pub ws_running : s.ws_running ≡ false
    pub no_ws : Service.is_present s.ws ≡ false
    pub no_rest : is_polling s.rest ≡ false

module _ {F : Type 0} where
  ws_test-gone :
      (p : Service.Phase) (s : Service F) → Service.is_present p ≡ false → Service.ws_test p s ≡ s
  unfolding Service.ws_test
  ws_test-gone Service.absent s h = refl
  ws_test-gone Service.left s h = refl
  ws_test-gone _ s h = cc

  ws_connect-gone :
      (opened : Bool) (p : Service.Phase) (s : Service F)
      → Service.is_present p ≡ false
      → Service.ws_connect opened p s ≡ s
  unfolding Service.ws_connect
  ws_connect-gone opened Service.absent s h = refl
  ws_connect-gone opened Service.left s h = refl
  ws_connect-gone opened _ s h = cc

  ws_close-gone :
      (p : Service.Phase) (s : Service F) → Service.is_present p ≡ false → Service.ws_close p s ≡ s
  unfolding Service.ws_close
  ws_close-gone Service.absent s h = refl
  ws_close-gone Service.left s h = refl
  ws_close-gone _ s h = cc

  rest_test-gone :
      (p : Service.Polling) (s : Service F) → is_polling p ≡ false → Service.rest_test p s ≡ s
  unfolding Service.rest_test
  rest_test-gone Service.unstarted s h = refl
  rest_test-gone Service.ended s h = refl
  rest_test-gone _ s h = cc

  rest_fetch-gone :
      (m : Option (MarketTick F)) (p : Service.Polling) (s : Service F)
      → is_polling p ≡ false
      → Service.rest_fetch m p s ≡ s
  unfolding Service.rest_fetch
  rest_fetch-gone m Service.unstarted s h = refl
  rest_fetch-gone m Service.ended s h = refl
  rest_fetch-gone m _ s h = cc

  pub fetched-gone :
      (m : Option (MarketTick F)) (p : Service.Polling) → is_polling p ≡ false → fetched m p ≡ none
  unfolding fetched
  fetched-gone m Service.unstarted h = refl
  fetched-gone m Service.ended h = refl
  fetched-gone m _ h = cc

module _ {F : Type 0} ⦃t : DoubleText F⦄ where
  ws_read-gone :
      (now : ℕ) (m : Option Text) (p : Service.Phase) (s : Service F)
      → Service.is_present p ≡ false
      → Service.ws_read now m p s ≡ s
  unfolding Service.ws_read
  ws_read-gone now none Service.absent s h = refl
  ws_read-gone now (some j) Service.absent s h = refl
  ws_read-gone now none Service.left s h = refl
  ws_read-gone now (some j) Service.left s h = refl
  ws_read-gone now m _ s h = cc

  pub heard-gone :
      (m : Option Text) (now : ℕ) (p : Service.Phase)
      → Service.is_present p ≡ false
      → heard {F = F} m now p ≡ none
  unfolding heard
  heard-gone none now Service.absent h = refl
  heard-gone (some j) now Service.absent h = refl
  heard-gone none now Service.left h = refl
  heard-gone (some j) now Service.left h = refl
  heard-gone m now _ h = cc

-- The actions of the market's threads.
abbrev pub IsThread : {F : Type 0} → Service.Action F → Type 0
IsThread Service.starts = ⊥
IsThread Service.stops = ⊥
IsThread _ = Unit

module _ {F : Type 0} ⦃t : DoubleText F⦄ where
  -- A thread that has left does nothing.
  pub step-IsQuiet :
      (s : Service F) (a : Service.Action F) → IsThread a → IsQuiet s → Service.step s a ≡ s
  unfolding Service.step
  step-IsQuiet s Service.starts h quiet = absurd h
  step-IsQuiet s Service.stops h quiet = absurd h
  step-IsQuiet s Service.ws_tests h quiet = ws_test-gone s.ws s quiet.no_ws
  step-IsQuiet s Service.rest_tests h quiet = rest_test-gone s.rest s quiet.no_rest
  step-IsQuiet s Service.closes h quiet = ws_close-gone s.ws s quiet.no_ws
  step-IsQuiet s (Service.connects opened) h quiet = ws_connect-gone opened s.ws s quiet.no_ws
  step-IsQuiet s (Service.reads now m) h quiet = ws_read-gone now m s.ws s quiet.no_ws
  step-IsQuiet s (Service.fetches m) h quiet = rest_fetch-gone m s.rest s quiet.no_rest

-- The server's thread, likewise.
pub test-gone :
    (flag : Bool) (p : Lifecycle.Phase) → Lifecycle.is_present p ≡ false → Lifecycle.test flag p ≡ p
unfolding Lifecycle.test
test-gone flag Lifecycle.absent h = refl
test-gone flag Lifecycle.left h = refl
test-gone flag _ h = cc

pub throw-gone : (p : Lifecycle.Phase) → Lifecycle.is_present p ≡ false → Lifecycle.throw p ≡ p
unfolding Lifecycle.throw
throw-gone Lifecycle.absent h = refl
throw-gone Lifecycle.left h = refl
throw-gone _ h = cc

pub accept-gone :
    (outcome : Accept) (p : Lifecycle.Phase)
    → Lifecycle.is_present p ≡ false
    → Lifecycle.accept outcome p ≡ p
unfolding Lifecycle.accept
accept-gone nobody Lifecycle.absent h = refl
accept-gone Lifecycle.failed Lifecycle.absent h = refl
accept-gone Lifecycle.connection Lifecycle.absent h = refl
accept-gone nobody Lifecycle.left h = refl
accept-gone Lifecycle.failed Lifecycle.left h = refl
accept-gone Lifecycle.connection Lifecycle.left h = refl
accept-gone outcome _ h = cc

module _ {E S : Type 0} where
  pub read-gone :
      (handler : Control.Handler E S) (outcome : Option (E × Request)) (p : Lifecycle.Phase)
      (st : S × List Response)
      → Lifecycle.is_present p ≡ false
      → Lifecycle.read handler outcome p st ≡ (p, st.0, st.1)
  unfolding Lifecycle.read
  read-gone handler none Lifecycle.absent st h = refl
  read-gone handler (some r) Lifecycle.absent st h = refl
  read-gone handler none Lifecycle.left st h = refl
  read-gone handler (some r) Lifecycle.left st h = refl
  read-gone handler outcome _ st h = cc

module _ {F : Type 0} where
  -- No thread of the market is in the tick handler.
  abbrev pub HaveReturned : Handling F → Handling F → Type 0
  HaveReturned ws rest = (ws ≡ returned) × (rest ≡ returned)

  pub called-gone :
      (clock : Clock) (m : Option (MarketTick F)) (h : Handling F) → m ≡ none → called clock m h ≡ h
  unfolding called
  called-gone clock m h e = rw e refl

  pub next-returned : (h : Handling F) → h ≡ returned → next h ≡ h
  unfolding next
  next-returned returned e = refl
  next-returned _ e = cc

module _ {F Q : Type 0} ⦃d : Double F⦄ ⦃t : DoubleText F⦄ ⦃q : LogQueue F Q⦄ where
  main_step-joined : (s : Stage) (p : Program F Q) → s ≡ joined → main_step s p ≡ p
  unfolding main_step
  main_step-joined joined p h = refl
  main_step-joined _ p h = cc

  handled-returned :
      (h : Handling F) (ctx : ControlApiContext F Q) → h ≡ returned → handled h ctx ≡ ctx
  unfolding handled
  handled-returned h ctx e = rw e refl

  -- A program whose threads are all gone stays as it is.
  pub step-joined :
      (p : Program F Q) (a : Action F)
      → p.stage ≡ joined
      → IsQuiet p.service
      → HaveReturned p.ws_handling p.rest_handling
      → Lifecycle.is_present p.server.phase ≡ false
      → step p a ≡ p
  unfolding step
  step-joined p main_moves at quiet back gone = main_step-joined p.stage p at
  step-joined p ws_tests at quiet back gone =
      rw (ap is_handling back.0, step-IsQuiet p.service Service.ws_tests tt quiet) refl
  step-joined p rest_tests at quiet back gone =
      rw (ap is_handling back.1, step-IsQuiet p.service Service.rest_tests tt quiet) refl
  step-joined p ws_handles at quiet back gone =
      rw (next-returned p.ws_handling back.0, handled-returned p.ws_handling p.ctx back.0) refl
  step-joined p rest_handles at quiet back gone =
      rw (next-returned p.rest_handling back.1, handled-returned p.rest_handling p.ctx back.1) refl
  step-joined p closes at quiet back gone =
      ap (λ s. record p { service = s }) (step-IsQuiet p.service Service.closes tt quiet)
  step-joined p server_tests at quiet back gone =
      ap (λ s. record p { server = record (p.server) { phase = s } })
        (test-gone p.server.running p.server.phase gone)
  step-joined p server_throws at quiet back gone =
      ap (λ s. record p { server = record (p.server) { phase = s } })
        (throw-gone p.server.phase gone)
  step-joined p (connects opened) at quiet back gone =
      ap (λ s. record p { service = s }) (step-IsQuiet p.service (Service.connects opened) tt quiet)
  step-joined p (reads clock now message) at quiet back gone =
      rw
        (
          step-IsQuiet p.service (Service.reads now message) tt quiet,
          called-gone clock (heard message now p.service.ws) p.ws_handling
              (heard-gone message now p.service.ws quiet.no_ws),
        )
        refl
  step-joined p (fetches clock m) at quiet back gone =
      rw
        (
          step-IsQuiet p.service (Service.fetches m) tt quiet,
          called-gone clock (fetched m p.service.rest) p.rest_handling
              (fetched-gone m p.service.rest quiet.no_rest),
        )
        refl
  step-joined p (accepts outcome) at quiet back gone =
      ap (λ s. record p { server = record (p.server) { phase = s } })
        (accept-gone outcome p.server.phase gone)
  step-joined p (receives outcome) at quiet back gone =
      rw (read-gone router outcome p.server.phase (p.ctx, p.answers) gone) refl
