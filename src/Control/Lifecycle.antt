-- ===== src/Control/Lifecycle.antt =====
-- The life of the thread of control/local_http_server.cpp: `start`, `stop` and the loop of `run`, in
-- which the thread waits for a connection without blocking, and for a request with blocking.
use frog_quant.Prelude.{Bool, true, false, Option, none, some, List, if◌then◌else◌}
use frog_quant.Control.{Response, Request, Handler, received, serve_round}

-- There is no thread, it is about to test the flag, to accept a connection or to read the request of
-- one, or it has left.
pub data Phase : Type 0 where
  absent testing accepting reading left : Phase

pub record Server : Type 0 where
  pub running : Bool
  pub phase : Phase

-- What accepting brings.
pub data Accept : Type 0 where
  nobody failed connection : Accept

abbrev pub is_present : Phase → Bool
is_present absent = false
is_present left = false
is_present _ = true

unfoldable pub new_server : Server
new_server = record { running = false; phase = absent }

unfoldable pub start : Server → Server
start s = if s.running then s else record { running = true; phase = testing }

-- `stop` up to the join.
unfoldable pub stop : Server → Server
stop s = if s.running then record s { running = false } else s

-- The test of the loop.
unfoldable pub test : Bool → Phase → Phase
test running testing = if running then accepting else left
test running p = p

unfoldable pub accept : Accept → Phase → Phase
accept connection accepting = reading
accept _ accepting = testing
accept _ p = p

-- An exception, as of a port that is taken, ends the thread.
unfoldable pub throw : Phase → Phase
throw absent = absent
throw _ = left

module _ {E S : Type 0} (handler : Handler E S) where
  -- What the read brings: a failure, or a request that is answered.
  unfoldable pub read : Option (E × Request) → Phase → S × List Response → Phase × S × List Response
  unfolding serve_round
  read none reading st = (testing, st.0, st.1)
  read (some (env, req)) reading st =
      let st' = serve_round handler (received env req) st in (testing, st'.0, st'.1)
  read _ p st = (p, st.0, st.1)
