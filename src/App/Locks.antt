-- ===== src/App/Locks.antt =====
-- The two mutexes that main.cpp hands to the tick handler and to the router, `grid_mu` and `state_mu`,
-- and the three threads that take them: which locks a call takes, in which order, and what it
-- touches under them. A `std::scoped_lock` is given back at the end of its block.
pub mod Discipline
pub mod Progress
use frog_quant.Prelude.{
  ℕ, zero, suc, ◌+◌, Bool, true, false, Option, none, some, List, [], ◌∷◌, ◌++◌, if◌then◌else◌,
  length,
}

-- The threads of the WebSocket client, of the market data service and of the server.
pub data Thread : Type 0 where
  web_socket polling server : Thread

pub data Mutex : Type 0 where
  grid_mu state_mu : Mutex

-- `touch` stands for an access to what a mutex guards: `grid`, or `events` and `orders`.
pub data LockOp : Type 0 where
  lock unlock touch : Mutex → LockOp

unfoldable pub scoped : Mutex → List LockOp → List LockOp
scoped m block = lock m ∷ touch m ∷ block ++ unlock m ∷ []

unfoldable pub push_event : List LockOp
unfolding scoped
push_event = scoped state_mu []

unfoldable pub push_events : ℕ → List LockOp
unfolding push_event
push_events zero = []
push_events (suc n) = push_event ++ push_events n

-- The calls, told apart by the locks they take. A tick comes with whether the strategy is enabled
-- and the number of its intents, a new grid with whether it is in range, an order with whether it
-- comes so far that it is recorded; `notes` are the other routes that push an event, `lists` those
-- that list the orders or the events.
pub data Call : Type 0 where
  tick : Bool → ℕ → Call
  get_runtime : Call
  post_grid : Bool → Call
  post_order : Bool → Call
  notes lists others : Call

unfoldable pub tick_ops : Bool → ℕ → List LockOp
unfolding scoped push_events
tick_ops true intents = scoped grid_mu (push_events intents)
tick_ops false intents = []

unfoldable pub get_runtime_ops : List LockOp
unfolding scoped
get_runtime_ops = scoped grid_mu []

-- The grid is read, and written if the new one is in range.
unfoldable pub post_grid_ops : Bool → List LockOp
unfolding scoped push_event
post_grid_ops true = scoped grid_mu (touch grid_mu ∷ push_event)
post_grid_ops false = scoped grid_mu []

unfoldable pub post_order_ops : Bool → List LockOp
unfolding scoped push_event
post_order_ops true = scoped state_mu [] ++ push_event
post_order_ops false = []

unfoldable pub list_ops : List LockOp
unfolding scoped
list_ops = scoped state_mu []

unfoldable pub lock_ops : Call → List LockOp
unfolding tick_ops get_runtime_ops post_grid_ops post_order_ops push_event list_ops
lock_ops (tick enabled intents) = tick_ops enabled intents
lock_ops get_runtime = get_runtime_ops
lock_ops (post_grid in_range) = post_grid_ops in_range
lock_ops (post_order recorded) = post_order_ops recorded
lock_ops notes = push_event
lock_ops lists = list_ops
lock_ops others = []

unfoldable pub all_ops : List Call → List LockOp
unfolding lock_ops
all_ops [] = []
all_ops (c ∷ calls) = lock_ops c ++ all_ops calls

-- Who holds the mutexes, and what each thread has still to do.
pub record Locks : Type 0 where
  pub grid_owner : Option Thread
  pub state_owner : Option Thread
  pub ops : Thread → List LockOp

unfoldable pub launch_locks : (Thread → List Call) → Locks
unfolding all_ops
launch_locks calls = record { grid_owner = none; state_owner = none; ops = λ i. all_ops (calls i) }

unfoldable pub same : Thread → Thread → Bool
same web_socket web_socket = true
same polling polling = true
same server server = true
same _ _ = false

unfoldable pub owner : Mutex → Locks → Option Thread
owner grid_mu s = s.grid_owner
owner state_mu s = s.state_owner

unfoldable pub set_owner : Mutex → Option Thread → Locks → Locks
set_owner grid_mu o s = record s { grid_owner = o }
set_owner state_mu o s = record s { state_owner = o }

unfoldable pub proceed : Thread → List LockOp → Locks → Locks
unfolding same
proceed i rest s = record s { ops = λ j. if same i j then rest else s.ops j }

-- A thread that asks for a mutex that is taken waits.
unfoldable pub acquire : Thread → Mutex → List LockOp → Option Thread → Locks → Locks
unfolding set_owner proceed
acquire i m rest none s = proceed i rest (set_owner m (some i) s)
acquire i m rest (some j) s = s

unfoldable pub turn : Thread → List LockOp → Locks → Locks
unfolding acquire owner set_owner proceed
turn i [] s = s
turn i (lock m ∷ rest) s = acquire i m rest (owner m s) s
turn i (unlock m ∷ rest) s = proceed i rest (set_owner m none s)
turn i (touch m ∷ rest) s = proceed i rest s

unfoldable pub run_locks : Locks → List Thread → Locks
unfolding turn
run_locks s [] = s
run_locks s (i ∷ rest) = run_locks (turn i (s.ops i) s) rest
