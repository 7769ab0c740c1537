-- ===== src/App/Locks/Progress.antt =====
-- What the order of the mutexes in App/Locks gives: no two threads in what one mutex guards, and no
-- deadlock.
use frog_quant.Prelude.{
  ℕ, zero, suc, ◌+◌, ◌≡◌, ◌≢◌, refl, ap, sym, ◌∙◌, subst, Bool, true, false, Option, none, some,
  List, [], ◌∷◌, ◌⊎◌, inl, inr, length, arith,
}
use frog_quant.App.Locks.{
  Thread, web_socket, polling, server, Mutex, grid_mu, state_mu, LockOp, lock, unlock, touch, Call,
  Locks, launch_locks, same, owner, set_owner, proceed, acquire, turn, run_locks,
}
use frog_quant.App.Locks.Discipline.{
  Follows, IsDisciplined, held, same_sound, same_refl, launch_locks-IsDisciplined,
  run_locks-IsDisciplined, turn-IsDisciplined,
}

held-owner : (o : Option Thread) (i j : Thread) → held o i ≡ true → held o j ≡ true → i ≡ j
held-owner none i j h k = cc
held-owner (some o) i j h k = sym (same_sound o i h) ∙ same_sound o j k

touch-held :
    (m : Mutex) (s : Locks) (i : Thread) (rest : List LockOp)
    → IsDisciplined s
    → s.ops i ≡ touch m ∷ rest
    → held (owner m s) i ≡ true
unfolding IsDisciplined owner
touch-held grid_mu s i rest d e =
    (subst (λ l. Follows (held s.grid_owner i) (held s.state_owner i) l) e (d i)).0
touch-held state_mu s i rest d e =
    (subst (λ l. Follows (held s.grid_owner i) (held s.state_owner i) l) e (d i)).0

-- Whatever the three threads call, and however they take turns: while one of them is at the grid, or
-- at the lists of events and orders, no other one is.
pub turns-exclusive :
    (calls : Thread → List Call) (schedule : List Thread) (m : Mutex) (i j : Thread)
    (rest rest' : List LockOp)
    → i ≢ j
    → (run_locks (launch_locks calls) schedule).ops i ≡ touch m ∷ rest
    → (run_locks (launch_locks calls) schedule).ops j ≢ touch m ∷ rest'
turns-exclusive calls schedule m i j rest rest' apart e f =
    let s = run_locks (launch_locks calls) schedule in
    let d =
      run_locks-IsDisciplined (launch_locks calls) schedule (launch_locks-IsDisciplined calls) in
    apart (held-owner (owner m s) i j (touch-held m s i rest d e) (touch-held m s j rest' d f))

-- How much the threads have still to do.
size : Locks → ℕ
size s = length (s.ops web_socket) + length (s.ops polling) + length (s.ops server)

Moves : Locks → Thread → Type 0
Moves s i = suc (size (turn i (s.ops i) s)) ≡ size s

proceed-size :
    (i : Thread) (op : LockOp) (rest : List LockOp) (s : Locks)
    → s.ops i ≡ op ∷ rest
    → suc (size (proceed i rest s)) ≡ size s
unfolding size proceed same
proceed-size web_socket op rest s e = rw e (omega arith)
proceed-size polling op rest s e = rw e (omega arith)
proceed-size server op rest s e = rw e (omega arith)

set_owner-size :
    (m : Mutex) (o : Option Thread) (i : Thread) (rest : List LockOp) (s : Locks)
    → size (proceed i rest (set_owner m o s)) ≡ size (proceed i rest s)
unfolding size proceed set_owner
set_owner-size grid_mu o i rest s = refl
set_owner-size state_mu o i rest s = refl

unlock-Moves :
    (m : Mutex) (s : Locks) (i : Thread) (rest : List LockOp)
    → s.ops i ≡ unlock m ∷ rest
    → Moves s i
unfolding Moves turn
unlock-Moves m s i rest e =
    rw e (ap suc (set_owner-size m none i rest s) ∙ proceed-size i (unlock m) rest s e)

touch-Moves :
    (m : Mutex) (s : Locks) (i : Thread) (rest : List LockOp) → s.ops i ≡ touch m ∷ rest → Moves s i
unfolding Moves turn
touch-Moves m s i rest e = rw e (proceed-size i (touch m) rest s e)

lock-Moves :
    (m : Mutex) (s : Locks) (i : Thread) (rest : List LockOp)
    → s.ops i ≡ lock m ∷ rest
    → owner m s ≡ none
    → Moves s i
unfolding Moves turn acquire
lock-Moves m s i rest e free =
    rw (e, free) (ap suc (set_owner-size m (some i) i rest s) ∙ proceed-size i (lock m) rest s e)

clash : {P : Type 0} (b : Bool) → b ≡ true → b ≡ false → P
clash b h k = cc

-- Who holds `state_mu` waits for nothing.
state_holder :
    (s : Locks) (k : Thread) (l : List LockOp)
    → s.ops k ≡ l
    → held s.state_owner k ≡ true
    → Follows (held s.grid_owner k) (held s.state_owner k) l
    → Moves s k
state_holder s k [] e h f = clash _ h f.1
state_holder s k (lock grid_mu ∷ rest) e h f = clash _ h f.1
state_holder s k (lock state_mu ∷ rest) e h f = clash _ h f.0
state_holder s k (unlock grid_mu ∷ rest) e h f = clash _ h f.1
state_holder s k (unlock state_mu ∷ rest) e h f = unlock-Moves state_mu s k rest e
state_holder s k (touch m ∷ rest) e h f = touch-Moves m s k rest e

state_asker :
    (s : Locks) (i : Thread) (rest : List LockOp) (o : Option Thread)
    → s.ops i ≡ lock state_mu ∷ rest
    → s.state_owner ≡ o
    → IsDisciplined s
    → (j : Thread) × Moves s j
unfolding IsDisciplined owner
state_asker s i rest none e free d = (i, lock-Moves state_mu s i rest e free)
state_asker s i rest (some k) e taken d =
    (k, state_holder s k (s.ops k) refl (ap (λ o. held o k) taken ∙ same_refl k) (d k))

-- Who holds `grid_mu` waits at most for `state_mu`.
grid_holder :
    (s : Locks) (k : Thread) (l : List LockOp)
    → s.ops k ≡ l
    → held s.grid_owner k ≡ true
    → Follows (held s.grid_owner k) (held s.state_owner k) l
    → IsDisciplined s
    → (j : Thread) × Moves s j
grid_holder s k [] e h f d = clash _ h f.0
grid_holder s k (lock grid_mu ∷ rest) e h f d = clash _ h f.0
grid_holder s k (lock state_mu ∷ rest) e h f d = state_asker s k rest s.state_owner e refl d
grid_holder s k (unlock m ∷ rest) e h f d = (k, unlock-Moves m s k rest e)
grid_holder s k (touch m ∷ rest) e h f d = (k, touch-Moves m s k rest e)

grid_asker :
    (s : Locks) (i : Thread) (rest : List LockOp) (o : Option Thread)
    → s.ops i ≡ lock grid_mu ∷ rest
    → s.grid_owner ≡ o
    → IsDisciplined s
    → (j : Thread) × Moves s j
unfolding IsDisciplined owner
grid_asker s i rest none e free d = (i, lock-Moves grid_mu s i rest e free)
grid_asker s i rest (some k) e taken d =
    grid_holder s k (s.ops k) refl (ap (λ o. held o k) taken ∙ same_refl k) (d k) d

mover :
    (s : Locks) (i : Thread) (l : List LockOp) (n : ℕ)
    → s.ops i ≡ l
    → length l ≡ suc n
    → IsDisciplined s
    → (j : Thread) × Moves s j
mover s i [] n e h d = absurd (omega arith)
mover s i (lock grid_mu ∷ rest) n e h d = grid_asker s i rest s.grid_owner e refl d
mover s i (lock state_mu ∷ rest) n e h d = state_asker s i rest s.state_owner e refl d
mover s i (unlock m ∷ rest) n e h d = (i, unlock-Moves m s i rest e)
mover s i (touch m ∷ rest) n e h d = (i, touch-Moves m s i rest e)

busy_of :
    (a b c n : ℕ)
    → a + b + c ≡ suc n
    → ((k : ℕ) × (a ≡ suc k)) ⊎ (((k : ℕ) × (b ≡ suc k)) ⊎ ((k : ℕ) × (c ≡ suc k)))
busy_of (suc a) b c n e = inl (a, refl)
busy_of zero (suc b) c n e = inr (inl (b, refl))
busy_of zero zero (suc c) n e = inr (inr (c, refl))
busy_of zero zero zero n e = absurd (omega arith)

some_mover : (s : Locks) (n : ℕ) → size s ≡ suc n → IsDisciplined s → (j : Thread) × Moves s j
unfolding size
some_mover s n e d =
    elim (busy_of (length (s.ops web_socket)) (length (s.ops polling)) (length (s.ops server)) n
      e) [
        | inl h ↦ mover s web_socket (s.ops web_socket) h.0 refl h.1 d
        | inr h ↦ (elim h [
          | inl k ↦ mover s polling (s.ops polling) k.0 refl k.1 d
          | inr k ↦ mover s server (s.ops server) k.0 refl k.1 d
        ])
      ]

finishes :
    (n : ℕ) (s : Locks)
    → size s ≡ n
    → IsDisciplined s
    → (rest : List Thread) × (size (run_locks s rest) ≡ 0)
unfolding run_locks Moves
finishes zero s e d = ([], e)
finishes (suc n) s e d =
    let (i, moved) = some_mover s n e d in
    let (rest, done) =
      finishes n (turn i (s.ops i) s) (omega arith) (turn-IsDisciplined i (s.ops i) s refl d) in
    (i ∷ rest, done)

length-zero : (l : List LockOp) → length l ≡ 0 → l ≡ []
length-zero [] h = refl
length-zero (op ∷ l) h = absurd (omega arith)

size-zero : (s : Locks) (i : Thread) → size s ≡ 0 → s.ops i ≡ []
unfolding size
size-zero s web_socket h = length-zero (s.ops web_socket) (omega arith)
size-zero s polling h = length-zero (s.ops polling) (omega arith)
size-zero s server h = length-zero (s.ops server) (omega arith)

-- The two mutexes never lead to a deadlock: whatever the three threads call, and however they have
-- taken their turns so far, they can go on until every call of theirs has returned.
pub calls-end :
    (calls : Thread → List Call) (schedule : List Thread)
    → (rest : List Thread) × ((i : Thread)
        → (run_locks (run_locks (launch_locks calls) schedule) rest).ops i ≡ [])
calls-end calls schedule =
    let s = run_locks (launch_locks calls) schedule in
    let d =
      run_locks-IsDisciplined (launch_locks calls) schedule (launch_locks-IsDisciplined calls) in
    let (rest, done) = finishes (size s) s refl d in
    (rest, λ i. size-zero (run_locks s rest) i done)
