-- ===== src/Core/Trading/Decisions.antt =====
-- What holds of the orders on record between two calls of `TradingCore`.
use frog_quant.Prelude.{
  ℕ, ◌≡◌, refl, ◌≢◌, Bool, true, false, Option, none, some, if◌then◌else◌, ◌==◌, arith,
  Option-cases, ==_iff, inl, inr, subst, List, [], ◌∷◌,
}
use frog_quant.Double.{Double, nought}
use frog_quant.Logger.{LogQueue, Logger}
use frog_quant.Core.Orders.{OrderRecord, OrderRequest, RiskConfig, new, rejected, no_reason}
use frog_quant.Core.Trading.{
  TradingCore, new_trading_core, on_tick, submit_manual_order, cancel_order, get_order, new_order,
  update_risk_config,
}
use frog_quant.Core.Trading.Outcome.{
  next_id, order_for, verdict, decided, submit_manual_order_lem, submit_manual_order_taken,
}
use frog_quant.Core.Trading.History.{Event, ticks, submits, cancels, configures, handle, run}

module _ {F : Type 0} ⦃d : Double F⦄ where
  -- The order under the id `k`: it has that id, a decision was made on it, it is rejected exactly
  -- if it has a reason, and was accepted only with a price that is not zero or less.
  pub record IsSettled (k : ℕ) (r : OrderRecord F) : Type 0 where
    pub own_id : r.order_id ≡ k
    pub not_new : r.status ≢ new
    pub reason_of_rejected : r.status ≡ rejected → r.reject_reason ≢ no_reason
    pub rejected_of_reason : r.reject_reason ≢ no_reason → r.status ≡ rejected
    pub priced : r.status ≢ rejected → d.le r.ref_price nought ≡ false

  abbrev pub SettledAt : ℕ → Option (OrderRecord F) → Type 0
  SettledAt k none = Unit {0}
  SettledAt k (some r) = IsSettled k r

  SettledAt-if :
      (b : Bool) (k : ℕ) (x y : Option (OrderRecord F))
      → (b ≡ true → SettledAt k x)
      → SettledAt k y
      → SettledAt k (if b then x else y)
  SettledAt-if true k x y hx hy = hx refl
  SettledAt-if false k x y hx hy = hy

module _ {F Q : Type 0} ⦃d : Double F⦄ ⦃q : LogQueue F Q⦄ where
  abbrev pub Settled : TradingCore F Q → Type 0
  Settled c = (k : ℕ) → SettledAt k (get_order c k)

  decided-IsSettled :
      (created : ℕ) (c : TradingCore F Q) (req : OrderRequest F)
      → let order = order_for created c req in
        IsSettled (next_id c) (decided order (verdict c order))
  unfolding new_order
  decided-IsSettled created c req = ground arith

  submit-Settled :
      (created now : ℕ) (c : TradingCore F Q) (req : OrderRequest F)
      → Settled c
      → Settled (submit_manual_order created now c req).0
  submit-Settled created now c req inv k =
      let order = order_for created c req in
      elim (Option-cases (get_order c (next_id c))) [
        | inl free ↦ rw ((submit_manual_order_lem created now c req free).2 k) (
            SettledAt-if (next_id c == k) k _ _
              (λ e. rw (← (==_iff _ _).0 e) (decided-IsSettled created c req)) (inv k))
        | inr (r, taken) ↦
            rw
              ((submit_manual_order_taken created now c req taken
                  (subst (SettledAt (next_id c)) taken (inv (next_id c))).not_new).0
                k)
              (inv k)
      ]

  cancel-Settled :
      (now : ℕ) (c : TradingCore F Q) (order_id : ℕ)
      → Settled c
      → Settled (cancel_order now c order_id).0
  unfolding cancel_order get_order
  cancel-Settled now c order_id inv k = ground (arith, inv k, inv order_id)

  handle-Settled : (c : TradingCore F Q) (e : Event F) → Settled c → Settled (handle c e)
  unfolding handle on_tick update_risk_config get_order
  handle-Settled c (ticks now tick) inv k = inv k
  handle-Settled c (submits created now req) inv k = submit-Settled created now c req inv k
  handle-Settled c (cancels now id) inv k = cancel-Settled now c id inv k
  handle-Settled c (configures cfg) inv k = inv k

  run-Settled :
      (c : TradingCore F Q) (history : List (Event F)) → Settled c → Settled (run c history)
  unfolding run
  run-Settled c [] inv = inv
  run-Settled c (e ∷ rest) inv = run-Settled (handle c e) rest (handle-Settled c e inv)

  -- After any history of ticks, orders, cancellations and changes of the limits, also one in which
  -- the 64-bit order counter wraps: no order on record is still `New`; each stands under its own
  -- id; it is rejected exactly if it has a reason; and one that is not rejected has a price that is
  -- not zero or less.
  pub new-run-Settled :
      (cfg : RiskConfig F) (logger : Logger Q) (history : List (Event F)) (k : ℕ)
      → SettledAt k (get_order (run (new_trading_core cfg logger) history) k)
  unfolding new_trading_core get_order
  new-run-Settled cfg logger history = run-Settled _ history (λ k. tt)
