-- ===== src/Core/Oms.antt =====
-- core/oms.{hpp,cpp}: `class OMS`. The hash map is a function from ids to records: the code only
-- finds and inserts. An operation gives the new map and what the method returns.
pub mod Lifecycle
use frog_quant.Prelude.{ℕ, Bool, true, false, Option, none, some, if◌then◌else◌, ◌==◌}
use frog_quant.Core.Orders.{
  OrderRecord, OrderStatus, RejectReason, accepted, rejected, cancelled, is_new, is_accepted,
}

pub record Oms (F : Type 0) : Type 0 where
  pub orders : ℕ → Option (OrderRecord F)

module _ {F : Type 0} where
  unfoldable pub empty : Oms F
  empty = record { orders = λ _. none }

  -- `orders_[order_id] = order`
  unfoldable pub store : ℕ → OrderRecord F → Oms F → Oms F
  store k r o = record { orders = λ j. if k == j then some r else o.orders j }

  unfoldable pub submit : Oms F → OrderRecord F → Oms F × Bool
  unfolding store
  submit o order = elim (o.orders order.order_id) [
    | some _ ↦ (o, false)
    | none ↦ (store order.order_id order o, true)
  ]

  unfoldable pub accept : Oms F → ℕ → Oms F × Bool
  unfolding store
  accept o order_id = elim (o.orders order_id) [
    | none ↦ (o, false)
    | some r ↦
        if is_new r.status
        then (store order_id (record r { status = accepted }) o, true)
        else (o, false)
  ]

  unfoldable pub reject : Oms F → ℕ → RejectReason → Oms F × Bool
  unfolding store
  reject o order_id reason = elim (o.orders order_id) [
    | none ↦ (o, false)
    | some r ↦
        if is_new r.status
        then (store order_id (record r { status = rejected; reject_reason = reason }) o, true)
        else (o, false)
  ]

  unfoldable pub cancel : Oms F → ℕ → Oms F × Bool
  unfolding store
  cancel o order_id = elim (o.orders order_id) [
    | none ↦ (o, false)
    | some r ↦
        if is_accepted r.status
        then (store order_id (record r { status = cancelled }) o, true)
        else (o, false)
  ]

  unfoldable pub get : Oms F → ℕ → Option (OrderRecord F)
  get o order_id = o.orders order_id
