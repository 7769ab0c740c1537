-- ===== src/App/Locks/Discipline.antt =====
-- The order in which the calls of App/Locks take their mutexes.
use frog_quant.Prelude.{
  ℕ, zero, suc, ◌≡◌, refl, ap, sym, ◌∙◌, subst, Bool, true, false, Option, none, some, List, [],
  ◌∷◌, ◌++◌, if◌then◌else◌,
}
use frog_quant.App.Locks.{
  Thread, web_socket, polling, server, Mutex, grid_mu, state_mu, LockOp, lock, unlock, touch,
  scoped, push_event, push_events, Call, tick, get_runtime, post_grid, post_order, notes, lists,
  others, tick_ops, get_runtime_ops, post_grid_ops, post_order_ops, list_ops, lock_ops, all_ops,
  Locks, launch_locks, same, owner, set_owner, proceed, acquire, turn, run_locks,
}

-- What a thread that holds `grid_mu`, and `state_mu`, or not, may still do: it takes `grid_mu` only
-- with empty hands, gives back what it has, touches what it has locked, and ends with empty hands.
abbrev pub Follows : Bool → Bool → List LockOp → Type 0
Follows g h [] = (g ≡ false) × (h ≡ false)
Follows g h (lock grid_mu ∷ rest) = (g ≡ false) × (h ≡ false) × Follows true false rest
Follows g h (lock state_mu ∷ rest) = (h ≡ false) × Follows g true rest
Follows g h (unlock grid_mu ∷ rest) = (g ≡ true) × (h ≡ false) × Follows false false rest
Follows g h (unlock state_mu ∷ rest) = (h ≡ true) × Follows g false rest
Follows g h (touch grid_mu ∷ rest) = (g ≡ true) × Follows g h rest
Follows g h (touch state_mu ∷ rest) = (h ≡ true) × Follows g h rest

push_event-Follows :
    (g : Bool) (rest : List LockOp) → Follows g false rest → Follows g false (push_event ++ rest)
unfolding push_event scoped
push_event-Follows g rest h = (refl, (refl, (refl, h)))

push_events-Follows :
    (g : Bool) (n : ℕ) (rest : List LockOp)
    → Follows g false rest
    → Follows g false (push_events n ++ rest)
unfolding push_events
push_events-Follows g zero rest h = h
push_events-Follows g (suc n) rest h =
    push_event-Follows g (push_events n ++ rest) (push_events-Follows g n rest h)

append_assoc : (xs ys zs : List LockOp) → (xs ++ ys) ++ zs ≡ xs ++ (ys ++ zs)
append_assoc [] ys zs = refl
append_assoc (x ∷ xs) ys zs = ap (λ l. x ∷ l) (append_assoc xs ys zs)

lock_ops-Follows :
    (c : Call) (rest : List LockOp)
    → Follows false false rest
    → Follows false false (lock_ops c ++ rest)
unfolding lock_ops tick_ops get_runtime_ops post_grid_ops post_order_ops list_ops scoped push_event
lock_ops-Follows (tick true intents) rest h = (
  refl,
  refl,
  (
    refl,
    subst (λ l. Follows true false l)
        (sym (append_assoc (push_events intents) (unlock grid_mu ∷ []) rest))
        (push_events-Follows true intents (unlock grid_mu ∷ rest) (refl, refl, h)),
  ),
)
lock_ops-Follows (tick false intents) rest h = h
lock_ops-Follows get_runtime rest h = (refl, refl, (refl, (refl, refl, h)))
lock_ops-Follows (post_grid true) rest h =
    (refl, refl, (refl, (refl, (refl, (refl, (refl, (refl, refl, h)))))))
lock_ops-Follows (post_grid false) rest h = (refl, refl, (refl, (refl, refl, h)))
lock_ops-Follows (post_order true) rest h = (refl, (refl, (refl, (refl, (refl, (refl, h))))))
lock_ops-Follows (post_order false) rest h = h
lock_ops-Follows notes rest h = (refl, (refl, (refl, h)))
lock_ops-Follows lists rest h = (refl, (refl, (refl, h)))
lock_ops-Follows others rest h = h

pub all_ops-Follows : (calls : List Call) → Follows false false (all_ops calls)
unfolding all_ops
all_ops-Follows [] = (refl, refl)
all_ops-Follows (c ∷ calls) = lock_ops-Follows c (all_ops calls) (all_ops-Follows calls)

-- Whether a thread is the one that holds a mutex.
abbrev pub held : Option Thread → Thread → Bool
held none j = false
held (some i) j = same i j

pub same_sound : (i j : Thread) → same i j ≡ true → i ≡ j
unfolding same
same_sound web_socket web_socket h = refl
same_sound polling polling h = refl
same_sound server server h = refl
same_sound _ _ h = cc

pub same_refl : (i : Thread) → same i i ≡ true
unfolding same
same_refl web_socket = refl
same_refl polling = refl
same_refl server = refl

-- Every thread follows the order, with what it holds.
unfoldable pub IsDisciplined : Locks → Type 0
IsDisciplined s = (i : Thread) → Follows (held s.grid_owner i) (held s.state_owner i) (s.ops i)

pub launch_locks-IsDisciplined : (calls : Thread → List Call) → IsDisciplined (launch_locks calls)
unfolding IsDisciplined launch_locks
launch_locks-IsDisciplined calls i = all_ops-Follows (calls i)

other-held :
    (o : Option Thread) (i j : Thread) → held o i ≡ true → same i j ≡ false → held o j ≡ false
other-held none i j h e = refl
other-held (some k) i j h e = rw (same_sound k i h) e

-- A thread goes on with `rest`, with what it holds then, and nothing changes for the others.
goes_on :
    (i : Thread) (rest : List LockOp) (g h g' h' : Option Thread) (ops : Thread → List LockOp)
    → Follows (held g' i) (held h' i) rest
    → ((j : Thread) → same i j ≡ false → (held g' j ≡ held g j) × (held h' j ≡ held h j))
    → ((j : Thread) → Follows (held g j) (held h j) (ops j))
    → (j : Thread) (b : Bool) → same i j ≡ b
    → Follows (held g' j) (held h' j) (if b then rest else ops j)
goes_on i rest g h g' h' ops own apart d j true e =
    subst (λ k. Follows (held g' k) (held h' k) rest) (same_sound i j e) own
goes_on i rest g h g' h' ops own apart d j false e = rw ((apart j e).0, (apart j e).1) (d j)

acquire-IsDisciplined :
    (i : Thread) (m : Mutex) (rest : List LockOp) (o : Option Thread) (s : Locks)
    → owner m s ≡ o
    → s.ops i ≡ lock m ∷ rest
    → IsDisciplined s
    → IsDisciplined (acquire i m rest o s)
unfolding IsDisciplined acquire owner set_owner proceed
acquire-IsDisciplined i grid_mu rest none s free e d j =
    let now = subst (λ l. Follows (held s.grid_owner i) (held s.state_owner i) l) e (d i) in
    goes_on i rest s.grid_owner s.state_owner (some i) s.state_owner s.ops
      (rw (same_refl i, now.1) now.2) (λ k other. (other ∙ sym (ap (λ o. held o k) free), refl)) d j
      (same i j) refl
acquire-IsDisciplined i state_mu rest none s free e d j =
    let now = subst (λ l. Follows (held s.grid_owner i) (held s.state_owner i) l) e (d i) in
    goes_on i rest s.grid_owner s.state_owner s.grid_owner (some i) s.ops (rw (same_refl i) now.1)
      (λ k other. (refl, other ∙ sym (ap (λ o. held o k) free))) d j (same i j) refl
acquire-IsDisciplined i grid_mu rest (some k) s free e d j = d j
acquire-IsDisciplined i state_mu rest (some k) s free e d j = d j

pub turn-IsDisciplined :
    (i : Thread) (l : List LockOp) (s : Locks)
    → s.ops i ≡ l
    → IsDisciplined s
    → IsDisciplined (turn i l s)
unfolding IsDisciplined turn set_owner proceed
turn-IsDisciplined i [] s e d j = d j
turn-IsDisciplined i (lock m ∷ rest) s e d j =
    acquire-IsDisciplined i m rest (owner m s) s refl e d j
turn-IsDisciplined i (unlock grid_mu ∷ rest) s e d j =
    let now = subst (λ l. Follows (held s.grid_owner i) (held s.state_owner i) l) e (d i) in
    goes_on i rest s.grid_owner s.state_owner none s.state_owner s.ops (rw (now.1) now.2)
      (λ k other. (sym (other-held s.grid_owner i k now.0 other), refl)) d j (same i j) refl
turn-IsDisciplined i (unlock state_mu ∷ rest) s e d j =
    let now = subst (λ l. Follows (held s.grid_owner i) (held s.state_owner i) l) e (d i) in
    goes_on i rest s.grid_owner s.state_owner s.grid_owner none s.ops now.1
      (λ k other. (refl, sym (other-held s.state_owner i k now.0 other))) d j (same i j) refl
turn-IsDisciplined i (touch grid_mu ∷ rest) s e d j =
    let now = subst (λ l. Follows (held s.grid_owner i) (held s.state_owner i) l) e (d i) in
    goes_on i rest s.grid_owner s.state_owner s.grid_owner s.state_owner s.ops now.1
      (λ k other. (refl, refl)) d j (same i j) refl
turn-IsDisciplined i (touch state_mu ∷ rest) s e d j =
    let now = subst (λ l. Follows (held s.grid_owner i) (held s.state_owner i) l) e (d i) in
    goes_on i rest s.grid_owner s.state_owner s.grid_owner s.state_owner s.ops now.1
      (λ k other. (refl, refl)) d j (same i j) refl

pub run_locks-IsDisciplined :
    (s : Locks) (schedule : List Thread) → IsDisciplined s → IsDisciplined (run_locks s schedule)
unfolding run_locks
run_locks-IsDisciplined s [] d = d
run_locks-IsDisciplined s (i ∷ rest) d =
    run_locks-IsDisciplined (turn i (s.ops i) s) rest (turn-IsDisciplined i (s.ops i) s refl d)
