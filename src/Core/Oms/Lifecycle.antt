-- ===== src/Core/Oms/Lifecycle.antt =====
-- The order states of core/order_types.hpp, and what the calls of `class OMS` do to them.
use frog_quant.Prelude.{
  ℕ, ◌≡◌, refl, ◌∙◌, ◌↔◌, ◌&&◌, Option-cases, Bool-cases, inl, inr, Bool, true, false, none, some,
  if◌then◌else◌, ◌==◌, arith, List, [], ◌∷◌,
}
use frog_quant.Core.Orders.{
  OrderRecord, OrderStatus, RejectReason, new, accepted, rejected, cancelled, is_new, is_accepted,
}
use frog_quant.Core.Oms.{Oms, submit, accept, reject, cancel, get}

-- The arrows of the comment on `OrderStatus`.
infix 40 ◌⟶◌ ◌⟶*◌
pub data ◌⟶◌ : OrderStatus → OrderStatus → Type 0 where
  accepting : new ⟶ accepted
  rejecting : new ⟶ rejected
  cancelling : accepted ⟶ cancelled

pub data ◌⟶*◌ : OrderStatus → OrderStatus → Type 0 where
  here : {s : OrderStatus} → s ⟶* s
  after : {s t u : OrderStatus} → s ⟶ t → t ⟶* u → s ⟶* u

⟶*-trans : {s t u : OrderStatus} → s ⟶* t → t ⟶* u → s ⟶* u
⟶*-trans here q = q
⟶*-trans (after a p) q = after a (⟶*-trans p q)

pub data Call (F : Type 0) : Type 0 where
  submits : OrderRecord F → Call F
  accepts cancels : ℕ → Call F
  rejects : ℕ → RejectReason → Call F

module _ {F : Type 0} where
  unfoldable pub call : Oms F → Call F → Oms F × Bool
  call o (submits order) = submit o order
  call o (accepts k) = accept o k
  call o (rejects k why) = reject o k why
  call o (cancels k) = cancel o k

  pub calls : Oms F → List (Call F) → Oms F
  calls o [] = o
  calls o (c ∷ rest) = calls (call o c).0 rest

  -- The fields that a state change must not touch, and the way that the state may go.
  pub record Evolves (r s : OrderRecord F) : Type 0 where
    pub order_id : s.order_id ≡ r.order_id
    pub symbol : s.symbol ≡ r.symbol
    pub side : s.side ≡ r.side
    pub type : s.type ≡ r.type
    pub qty : s.qty ≡ r.qty
    pub ref_price : s.ref_price ≡ r.ref_price
    pub create_ts_ms : s.create_ts_ms ≡ r.create_ts_ms
    pub path : r.status ⟶* s.status

  Evolves-refl : (r : OrderRecord F) → Evolves r r
  Evolves-refl r = record {
    order_id = refl;
    symbol = refl;
    side = refl;
    type = refl;
    qty = refl;
    ref_price = refl;
    create_ts_ms = refl;
    path = here;
  }

  Evolves-trans : {r s u : OrderRecord F} → Evolves r s → Evolves s u → Evolves r u
  Evolves-trans e f = record {
    order_id = f.order_id ∙ e.order_id;
    symbol = f.symbol ∙ e.symbol;
    side = f.side ∙ e.side;
    type = f.type ∙ e.type;
    qty = f.qty ∙ e.qty;
    ref_price = f.ref_price ∙ e.ref_price;
    create_ts_ms = f.create_ts_ms ∙ e.create_ts_ms;
    path = ⟶*-trans e.path f.path;
  }

  -- A change of state alone, along one arrow.
  Evolves-step :
      (r : OrderRecord F) (s : OrderStatus) (why : RejectReason)
      → r.status ⟶ s
      → Evolves r (record r { status = s; reject_reason = why })
  Evolves-step r s why a = record {
    order_id = refl;
    symbol = refl;
    side = refl;
    type = refl;
    qty = refl;
    ref_price = refl;
    create_ts_ms = refl;
    path = after a here;
  }

  -- When a call is in order.
  abbrev pub Allowed : Oms F → Call F → Type 0
  Allowed o (submits order) = get o order.order_id ≡ none
  Allowed o (accepts k) = (r : OrderRecord F) × (get o k ≡ some r) × (r.status ≡ new)
  Allowed o (rejects k why) = (r : OrderRecord F) × (get o k ≡ some r) × (r.status ≡ new)
  Allowed o (cancels k) = (r : OrderRecord F) × (get o k ≡ some r) × (r.status ≡ accepted)

  -- A call returns `true` exactly when it is in order: a new id is submitted, a new order is
  -- accepted or rejected, an accepted order is cancelled.
  pub call-Allowed : (o : Oms F) (c : Call F) → ((call o c).1 ≡ true) ↔ Allowed o c
  unfolding call submit accept reject cancel get
  call-Allowed o (submits order) = ground arith
  call-Allowed o (accepts k) = elim (Option-cases (get o k)) [
    | inl e ↦ ground arith
    | inr (r, e) ↦ (λ h. (r, e, ground arith), λ a. ground arith)
  ]
  call-Allowed o (rejects k why) = elim (Option-cases (get o k)) [
    | inl e ↦ ground arith
    | inr (r, e) ↦ (λ h. (r, e, ground arith), λ a. ground arith)
  ]
  call-Allowed o (cancels k) = elim (Option-cases (get o k)) [
    | inl e ↦ ground arith
    | inr (r, e) ↦ (λ h. (r, e, ground arith), λ a. ground arith)
  ]

  -- A call that returns `false` changes nothing.
  pub call-refused : (o : Oms F) (c : Call F) → (call o c).1 ≡ false → (call o c).0 ≡ o
  unfolding call submit accept reject cancel
  call-refused o (submits order) h = ground arith
  call-refused o (accepts k) h = ground arith
  call-refused o (rejects k why) h = ground arith
  call-refused o (cancels k) h = ground arith

  -- What a call makes of the order that is stored under `k`.
  moved : Call F → ℕ → OrderRecord F → OrderRecord F
  moved (submits order) k r = r
  moved (accepts j) k r = if j == k && is_new r.status then record r { status = accepted } else r
  moved (rejects j why) k r =
      if j == k && is_new r.status then record r { status = rejected; reject_reason = why } else r
  moved (cancels j) k r =
      if j == k && is_accepted r.status then record r { status = cancelled } else r

  get-call :
      (o : Oms F) (c : Call F) (k : ℕ) (r : OrderRecord F)
      → get o k ≡ some r
      → get (call o c).0 k ≡ some (moved c k r)
  unfolding moved call submit accept reject cancel get
  get-call o (submits order) k r h = ground arith
  get-call o (accepts j) k r h = ground arith
  get-call o (rejects j why) k r h = ground arith
  get-call o (cancels j) k r h = ground arith

  moved-Evolves : (c : Call F) (k : ℕ) (r : OrderRecord F) → Evolves r (moved c k r)
  unfolding moved
  moved-Evolves (submits order) k r = Evolves-refl r
  moved-Evolves (accepts j) k r = elim (Bool-cases (j == k && is_new r.status)) [
    | inl e ↦
        let at : r.status ≡ new = ground arith in
        rw e (Evolves-step r accepted r.reject_reason (rw at accepting))
    | inr e ↦ rw e (Evolves-refl r)
  ]
  moved-Evolves (rejects j why) k r = elim (Bool-cases (j == k && is_new r.status)) [
    | inl e ↦
        let at : r.status ≡ new = ground arith in
        rw e (Evolves-step r rejected why (rw at rejecting))
    | inr e ↦ rw e (Evolves-refl r)
  ]
  moved-Evolves (cancels j) k r = elim (Bool-cases (j == k && is_accepted r.status)) [
    | inl e ↦
        let at : r.status ≡ accepted = ground arith in
        rw e (Evolves-step r cancelled r.reject_reason (rw at cancelling))
    | inr e ↦ rw e (Evolves-refl r)
  ]

  -- However the store is used, an order that was submitted stays: under the same id, with the same
  -- symbol, side, type, quantity, price and time, and its state moves only along the arrows.
  pub calls-Evolves :
      (o : Oms F) (history : List (Call F)) (k : ℕ) {r : OrderRecord F}
      → get o k ≡ some r
      → (s : OrderRecord F) × (get (calls o history) k ≡ some s) × Evolves r s
  unfolding calls
  calls-Evolves o [] k {r} h = (r, h, Evolves-refl r)
  calls-Evolves o (c ∷ rest) k {r} h =
      let (s, e, v) = calls-Evolves (call o c).0 rest k (get-call o c k r h) in
      (s, e, Evolves-trans (moved-Evolves c k r) v)
