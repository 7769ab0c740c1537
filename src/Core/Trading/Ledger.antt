-- ===== src/Core/Trading/Ledger.antt =====
-- How ids are given out, and what the position in the account stands for.
use frog_quant.Core.Orders.{is_buy}
use frog_quant.Prelude.{
  ◌&&◌, ℕ, zero, suc, ◌+◌, ◌^◌, ◌<◌, ◌≤◌, ◌≡◌, refl, sym, ap, ◌∙◌, Bool, true, false, ◌&&◌, Option,
  none, some, List, [], ◌∷◌, if◌then◌else◌, leb, ltb, arith, is_some,
}
use frog_quant.Double.{Double, nought}
use frog_quant.Logger.{LogQueue, Logger}
use frog_quant.Core.Orders.{
  OrderRecord, OrderRequest, OrderStatus, RiskConfig, rejected, is_buy, is_none,
}
use frog_quant.Core.Trading.{
  TradingCore, new_trading_core, on_tick, submit_manual_order, cancel_order, get_order, book,
  new_order, update_risk_config,
}
use frog_quant.Core.Trading.Outcome.{
  next_id, order_for, verdict, decided, submit_manual_order_lem, cancel_order_lem,
}
use frog_quant.Core.Trading.History.{
  Event, ticks, submits, cancels, configures, orders_in, handle, run,
}

abbrev counts : OrderStatus → Bool
counts rejected = false
counts _ = true

module _ {F : Type 0} ⦃d : Double F⦄ where
  -- What one order on record adds to the position: a buy that was not rejected counts, also once
  -- it is cancelled.
  abbrev pub add_order : F → Option (OrderRecord F) → F
  add_order sum none = sum
  add_order sum (some r) =
      if is_buy r.side && counts r.status then d.add sum (d.mul r.qty r.ref_price) else sum

  -- The orders 1 to `n` added up in the order of their ids.
  unfoldable pub position_of : (ℕ → Option (OrderRecord F)) → ℕ → F
  position_of orders zero = nought
  position_of orders (suc n) = add_order (position_of orders n) (orders (suc n))

  position_of-cong :
      (f g : ℕ → Option (OrderRecord F)) (n : ℕ)
      → ((sum : F) (k : ℕ) → k ≤ n → add_order sum (f k) ≡ add_order sum (g k))
      → position_of f n ≡ position_of g n
  unfolding position_of
  position_of-cong f g zero h = refl
  position_of-cong f g (suc n) h =
      ap (λ sum. add_order sum (f (suc n)))
        (position_of-cong f g n (λ sum k le. h sum k (omega arith)))
      ∙ h (position_of g n) (suc n) (omega arith)

orders_in-cons :
    {F : Type 0} (e : Event F) (rest : List (Event F))
    → orders_in (e ∷ rest) ≡ orders_in (e ∷ []) + orders_in rest
orders_in-cons (submits _ _ _) rest = omega arith
orders_in-cons (ticks _ _) rest = omega arith
orders_in-cons (cancels _ _) rest = omega arith
orders_in-cons (configures _) rest = omega arith

module _ {F Q : Type 0} ⦃d : Double F⦄ ⦃q : LogQueue F Q⦄ where
  -- The ids on record are exactly 1 to `seq`.
  abbrev pub Numbered : TradingCore F Q → Type 0
  Numbered c = (k : ℕ) → is_some (get_order c k) ≡ (ltb 0 k && leb k c.seq)

  pub record IsReconciled (c : TradingCore F Q) : Type 0 where
    pub numbered : Numbered c
    pub position : c.account.position_notional_usd ≡ position_of (get_order c) c.seq

  next_id_lem : (c : TradingCore F Q) → c.seq + 1 < 2 ^ 64 → next_id c ≡ suc c.seq
  next_id_lem c h = omega arith

  id-free : (c : TradingCore F Q) → c.seq + 1 < 2 ^ 64 → Numbered c → get_order c (next_id c) ≡ none
  id-free c h numbered = ground (arith, numbered (next_id c))

  submit-Numbered :
      (created now : ℕ) (c : TradingCore F Q) (req : OrderRequest F)
      → c.seq + 1 < 2 ^ 64
      → Numbered c
      → Numbered (submit_manual_order created now c req).0
  submit-Numbered created now c req h numbered k =
      let facts = submit_manual_order_lem created now c req (id-free c h numbered) in
      ground (arith, facts.0, facts.1, facts.2 k, numbered k)

  -- What the decision on an order adds to the account's position.
  book-add_order :
      (created : ℕ) (c : TradingCore F Q) (req : OrderRequest F)
      → let order = order_for created c req in
        let rr = verdict c order in
        (if is_none rr && is_buy order.side
          then record c.account {
            position_notional_usd =
                d.add c.account.position_notional_usd (d.mul order.qty order.ref_price);
          }
          else c.account).position_notional_usd
        ≡ add_order c.account.position_notional_usd (some (decided order rr))
  unfolding book new_order
  book-add_order created c req = ground arith

  submit-position :
      (created now : ℕ) (c : TradingCore F Q) (req : OrderRequest F)
      → c.seq + 1 < 2 ^ 64
      → IsReconciled c
      → let c' = (submit_manual_order created now c req).0 in
        c'.account.position_notional_usd ≡ position_of (get_order c') c'.seq
  unfolding position_of
  submit-position created now c req h inv =
      let (id, seq, orders, account, price, limits) =
        submit_manual_order_lem created now c req (id-free c h inv.numbered) in
      let c' : TradingCore F Q = (submit_manual_order created now c req).0 in
      let last : c'.seq ≡ suc c.seq = omega (arith, seq, id) in
      let added : get_order c' (suc c.seq)
          ≡ some (decided (order_for created c req) (verdict c (order_for created c req))) =
        ground (arith, orders (suc c.seq)) in
      let others : position_of (get_order c') c.seq ≡ position_of (get_order c) c.seq =
        position_of-cong (get_order c') (get_order c) c.seq
          (λ sum k le. ap (add_order sum) (ground (arith, orders k))) in
      ap (λ a. a.position_notional_usd) account
      ∙ book-add_order created c req
      ∙ ap
          (λ p.
            add_order p
              (some (decided (order_for created c req) (verdict c (order_for created c req)))))
          (inv.position ∙ sym others)
      ∙ ap (add_order (position_of (get_order c') c.seq)) (sym added)
      ∙ ap (position_of (get_order c')) (sym last)

  -- A cancelled order goes on counting.
  cancelled-add_order :
      (now : ℕ) (c : TradingCore F Q) (order_id k : ℕ) (sum : F)
      → add_order sum (get_order (cancel_order now c order_id).0 k) ≡ add_order sum (get_order c k)
  unfolding cancel_order get_order
  cancelled-add_order now c order_id k sum = ground arith

  cancel-IsReconciled :
      (now : ℕ) (c : TradingCore F Q) (order_id : ℕ)
      → IsReconciled c
      → IsReconciled (cancel_order now c order_id).0
  unfolding cancel_order
  cancel-IsReconciled now c order_id inv =
      let c' : TradingCore F Q = (cancel_order now c order_id).0 in
      let (done, orders, account) = cancel_order_lem now c order_id in
      record {
        numbered = λ k. ground (arith, orders k, inv.numbered k);
        position =
            ap (λ a. a.position_notional_usd) account
            ∙ inv.position
            ∙ sym (
                position_of-cong (get_order c') (get_order c) c.seq
                  (λ sum k le. cancelled-add_order now c order_id k sum));
      }

  handle-seq :
      (c : TradingCore F Q) (e : Event F)
      → c.seq + orders_in (e ∷ []) < 2 ^ 64
      → IsReconciled c
      → (handle c e).seq ≡ c.seq + orders_in (e ∷ [])
  unfolding handle on_tick update_risk_config cancel_order
  handle-seq c (ticks now tick) h inv = omega arith
  handle-seq c (submits created now req) h inv =
      let facts = submit_manual_order_lem created now c req (id-free c h inv.numbered) in
      omega (arith, facts.0, facts.1)
  handle-seq c (cancels now id) h inv = omega arith
  handle-seq c (configures cfg) h inv = omega arith

  handle-IsReconciled :
      (c : TradingCore F Q) (e : Event F)
      → c.seq + orders_in (e ∷ []) < 2 ^ 64
      → IsReconciled c
      → IsReconciled (handle c e)
  unfolding handle on_tick update_risk_config get_order
  handle-IsReconciled c (ticks now tick) h inv = record {
    numbered = inv.numbered;
    position = inv.position;
  }
  handle-IsReconciled c (submits created now req) h inv = record {
    numbered = submit-Numbered created now c req h inv.numbered;
    position = submit-position created now c req h inv;
  }
  handle-IsReconciled c (cancels now id) h inv = cancel-IsReconciled now c id inv
  handle-IsReconciled c (configures cfg) h inv = record {
    numbered = inv.numbered;
    position = inv.position;
  }

  run-IsReconciled :
      (c : TradingCore F Q) (history : List (Event F))
      → c.seq + orders_in history < 2 ^ 64
      → IsReconciled c
      → IsReconciled (run c history) × ((run c history).seq ≡ c.seq + orders_in history)
  unfolding run
  run-IsReconciled c [] h inv = (inv, omega arith)
  run-IsReconciled c (e ∷ rest) h inv =
      let whole = orders_in-cons e rest in
      let one = handle-seq c e (omega arith) inv in
      let (inv', n) =
        run-IsReconciled (handle c e) rest (omega arith)
          (handle-IsReconciled c e (omega arith) inv) in
      (inv', omega arith)

  new-run :
      (cfg : RiskConfig F) (logger : Logger Q) (history : List (Event F))
      → orders_in history < 2 ^ 64
      → let c = run (new_trading_core cfg logger) history in
        IsReconciled c × (c.seq ≡ orders_in history)
  unfolding new_trading_core get_order position_of
  new-run cfg logger history h =
      let fresh : IsReconciled (new_trading_core cfg logger) = record {
        numbered = λ k. ground arith;
        position = refl;
      } in
      let (inv, n) = run-IsReconciled (new_trading_core cfg logger) history (omega arith) fresh in
      (inv, omega arith)

  -- After any history with fewer than 2^64 orders from a new core: the orders have the ids 1, 2, …
  -- in the order of their submission, one for each; and the position in the account is exactly the
  -- sum, in that order and from zero, of quantity times price over the buys that were not
  -- rejected, the cancelled ones included.
  pub new-run-IsReconciled :
      (cfg : RiskConfig F) (logger : Logger Q) (history : List (Event F))
      → orders_in history < 2 ^ 64
      → let c = run (new_trading_core cfg logger) history in
        (c.seq ≡ orders_in history)
        × Numbered c
        × (c.account.position_notional_usd ≡ position_of (get_order c) (orders_in history))
  new-run-IsReconciled cfg logger history h =
      let c : TradingCore F Q = run (new_trading_core cfg logger) history in
      let (inv, n) = new-run cfg logger history h in
      (n, inv.numbered, inv.position ∙ ap (position_of (get_order c)) n)
