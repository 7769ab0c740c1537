-- ===== src/App/Program/Silence.antt =====
-- A client that connects to the server and sends nothing: `http::read` has no deadline.
use frog_quant.Prelude.{
  ◌≡◌, refl, ap, ◌∙◌, Bool, true, false, List, [], ◌∷◌, arith, All, if◌then◌else◌,
}
use frog_quant.Double.{Double, DoubleText}
use frog_quant.Logger.{LogQueue}
use frog_quant.Control.Lifecycle.{
  Server, Accept, nobody, failed, connection, absent, testing, accepting, reading, left,
}
use frog_quant.Control.Lifecycle
use frog_quant.App.Program.{
  Program, Action, main_moves, ws_tests, rest_tests, ws_handles, rest_handles, closes,
  market_remains, server_tests, server_throws, connects, reads, fetches, accepts, receives, Stage,
  running, joining_service, joining_server, joined, main_step, step, run,
}

module _ {F : Type 0} where
  -- No request comes in, and the server's thread meets no exception.
  abbrev pub IsSilent : Action F → Type 0
  IsSilent (receives outcome) = ⊥
  IsSilent server_throws = ⊥
  IsSilent _ = Unit

abbrev is_joined : Stage → Bool
is_joined joined = true
is_joined _ = false

stop-phase : (s : Server) → (Lifecycle.stop s).phase ≡ s.phase
unfolding Lifecycle.stop
stop-phase s = ground arith

module _ {F Q : Type 0} where
  -- The server is in the read of a connection, and the main thread is not behind its joins.
  pub record IsHeld (p : Program F Q) : Type 0 where
    pub phase : p.server.phase ≡ reading
    pub stage : is_joined p.stage ≡ false

  if-IsHeld : (b : Bool) (p p' : Program F Q) → IsHeld p → IsHeld p' → IsHeld (if b then p else p')
  if-IsHeld true p p' h h' = h
  if-IsHeld false p p' h h' = h'

  if-stays : (b : Bool) (p p' : Program F Q) → b ≡ true → IsHeld p → IsHeld (if b then p else p')
  if-stays true p p' e h = h
  if-stays false p p' e h = cc

  main_step-IsHeld :
      (at : Stage) (p : Program F Q) → p.stage ≡ at → IsHeld p → IsHeld (main_step at p)
  unfolding main_step
  main_step-IsHeld running p e h = record { phase = h.phase; stage = refl }
  main_step-IsHeld joining_service p e h =
      if-IsHeld (market_remains p) p _ h
        (record { phase = stop-phase p.server ∙ h.phase; stage = refl })
  main_step-IsHeld joining_server p e h =
      if-stays (Lifecycle.is_present p.server.phase) p _ (ap Lifecycle.is_present h.phase) h
  main_step-IsHeld joined p e h = h

accept-reading : (outcome : Accept) → Lifecycle.accept outcome reading ≡ reading
unfolding Lifecycle.accept
accept-reading nobody = refl
accept-reading failed = refl
accept-reading connection = refl

module _ {F Q : Type 0} ⦃d : Double F⦄ ⦃t : DoubleText F⦄ ⦃q : LogQueue F Q⦄ where
  step-IsHeld : (p : Program F Q) (a : Action F) → IsSilent a → IsHeld p → IsHeld (step p a)
  unfolding step Lifecycle.test
  step-IsHeld p main_moves s h = main_step-IsHeld p.stage p refl h
  step-IsHeld p ws_tests s h = record { phase = h.phase; stage = h.stage }
  step-IsHeld p rest_tests s h = record { phase = h.phase; stage = h.stage }
  step-IsHeld p ws_handles s h = record { phase = h.phase; stage = h.stage }
  step-IsHeld p rest_handles s h = record { phase = h.phase; stage = h.stage }
  step-IsHeld p closes s h = record { phase = h.phase; stage = h.stage }
  step-IsHeld p server_tests s h = record { phase = rw (h.phase) refl; stage = h.stage }
  step-IsHeld p server_throws s h = absurd s
  step-IsHeld p (connects opened) s h = record { phase = h.phase; stage = h.stage }
  step-IsHeld p (reads clock now message) s h = record { phase = h.phase; stage = h.stage }
  step-IsHeld p (fetches clock m) s h = record { phase = h.phase; stage = h.stage }
  step-IsHeld p (accepts outcome) s h = record {
    phase = ap (Lifecycle.accept outcome) h.phase ∙ accept-reading outcome;
    stage = h.stage;
  }
  step-IsHeld p (receives outcome) s h = absurd s

  -- A client that is connected and sends nothing holds the server, and `main` in its joins: whatever
  -- else happens, and for however long, no other connection is accepted and `main` does not get
  -- behind `control.stop`.
  pub silent_client-holds :
      (p : Program F Q) (acts : List (Action F))
      → All IsSilent acts
      → IsHeld p
      → IsHeld (run p acts)
  unfolding run
  silent_client-holds p [] s h = h
  silent_client-holds p (a ∷ acts) s h =
      silent_client-holds (step p a) acts s.1 (step-IsHeld p a s.0 h)
