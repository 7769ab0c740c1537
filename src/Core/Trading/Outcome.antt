-- ===== src/Core/Trading/Outcome.antt =====
-- What `TradingCore::submit_manual_order` and `cancel_order` amount to.
use mathlib.Core.Option
use frog_quant.Prelude.{
  ℕ, ◌+◌, ◌%◌, ◌^◌, ◌≡◌, refl, ◌≢◌, ◌↔◌, inl, inr, true, ◌&&◌, none, some, if◌then◌else◌, ◌==◌,
  arith, Option-cases, is_some,
}
use frog_quant.Double.{Double, nought}
use frog_quant.Logger.{LogQueue}
use frog_quant.Core.Orders.{
  OrderRecord, OrderRequest, RejectReason, new, accepted, rejected, cancelled, price_unavailable,
  is_none, is_limit, is_buy, no_reason, max_single_order_notional, max_position_ratio,
  daily_loss_stop,
}
use frog_quant.Core.Risk.{check_pre_trade, day_loss_ratio}
use frog_quant.Core.Trading.{
  TradingCore, new_order, ref_price_of, book, submit_manual_order, cancel_order, get_order,
  risk_config,
}

-- An order after the decision on it: accepted if there is no reason against it.
abbrev pub decided : {F : Type 0} → OrderRecord F → RejectReason → OrderRecord F
decided order rr = record order {
  status = elim rr [ no_reason ↦ accepted | _ ↦ rejected ];
  reject_reason = rr;
}

module _ {F Q : Type 0} ⦃d : Double F⦄ ⦃q : LogQueue F Q⦄ where
  abbrev pub next_id : TradingCore F Q → ℕ
  next_id c = (c.seq + 1) % 2 ^ 64

  -- The order that a request stands for, and the decision on it.
  abbrev pub order_for : ℕ → TradingCore F Q → OrderRequest F → OrderRecord F
  order_for created c req = record {
    order_id = next_id c;
    symbol = req.symbol;
    side = req.side;
    type = req.type;
    qty = req.qty;
    ref_price =
        if is_limit req.type && d.lt nought req.limit_price then req.limit_price else c.last_price;
    status = new;
    reject_reason = no_reason;
    create_ts_ms = created;
  }

  -- The first of these that an order breaks: it has a price, its amount is within the limit for one
  -- order, the position with it is within its share of the equity, and the day's loss is below its
  -- share of the equity, where a loss counts as the whole of an equity that is not positive.
  abbrev pub verdict : TradingCore F Q → OrderRecord F → RejectReason
  verdict c order =
      let limits = c.risk.cfg in
      let amount = d.fabs (d.mul order.qty order.ref_price) in
      let share =
        if d.lt nought c.account.equity_usd
        then d.div c.account.day_loss_usd c.account.equity_usd
        else d.lit 1 0 in
      if d.le order.ref_price nought
      then price_unavailable
      else if d.lt limits.max_single_order_notional_usd amount
      then max_single_order_notional
      else if d.lt (d.mul c.account.equity_usd limits.max_position_ratio)
          (d.add c.account.position_notional_usd amount)
      then max_position_ratio
      else if d.le limits.daily_loss_stop_ratio share
      then daily_loss_stop
      else no_reason

  -- A request under an id that is not taken: the id is the next number, and it is returned. The
  -- order is on record with the decision, which accepts it or names the first of these that it
  -- breaks: it has a price, and it keeps to the limits of one order, of the position and of the
  -- day's loss. No other order changes. Only an accepted buy changes the account: its amount is
  -- added to the position. The last price and the limits stay.
  pub submit_manual_order_lem :
      (created now : ℕ) (c : TradingCore F Q) (req : OrderRequest F)
      → get_order c (next_id c) ≡ none
      → let order = order_for created c req in
        let rr = verdict c order in
        let (c', id) = submit_manual_order created now c req in
        (id ≡ next_id c)
        × (c'.seq ≡ id)
        × ((k : ℕ)
            → get_order c' k ≡ (if next_id c == k then some (decided order rr) else get_order c k))
        × (c'.account ≡ (
            if is_none rr && is_buy order.side
            then record c.account {
              position_notional_usd =
                  d.add c.account.position_notional_usd (d.mul order.qty order.ref_price);
            }
            else c.account))
        × (c'.last_price ≡ c.last_price)
        × (risk_config c' ≡ risk_config c)
  unfolding submit_manual_order get_order risk_config check_pre_trade day_loss_ratio new_order book
      ref_price_of
  submit_manual_order_lem created now c req free =
      (refl, ground arith, λ k. ground arith, ground arith, ground arith, ground arith)

  -- A request under an id that is taken by an order with a decision on it changes no order and not
  -- the account.
  pub submit_manual_order_taken :
      (created now : ℕ) (c : TradingCore F Q) (req : OrderRequest F) {r : OrderRecord F}
      → get_order c (next_id c) ≡ some r
      → r.status ≢ new
      → let (c', id) = submit_manual_order created now c req in
        ((k : ℕ) → get_order c' k ≡ get_order c k) × (c'.account ≡ c.account)
  unfolding submit_manual_order get_order
  submit_manual_order_taken created now c req taken old = (λ k. ground arith, ground arith)

  -- Every request leaves an order on record under the id that it is given.
  pub get_order-submit_manual_order :
      (created now : ℕ) (c : TradingCore F Q) (req : OrderRequest F)
      → is_some (
          get_order
            (submit_manual_order created now c req).0
            (submit_manual_order created now c req).1)
        ≡ true
  unfolding submit_manual_order get_order
  get_order-submit_manual_order created now c req = elim (Option-cases (get_order c (next_id c))) [
    | inl e ↦ ground arith
    | inr (r, e) ↦ ground arith
  ]

  -- `cancel_order` reports success exactly for an accepted order, which is then cancelled. In
  -- every case all other orders stay, and so does the account: a cancelled order still counts
  -- towards the position.
  pub cancel_order_lem :
      (now : ℕ) (c : TradingCore F Q) (order_id : ℕ)
      → let (c', done) = cancel_order now c order_id in
        ((done ≡ true)
          ↔ ((r : OrderRecord F) × (get_order c order_id ≡ some r) × (r.status ≡ accepted)))
        × ((k : ℕ)
            → get_order c' k ≡ (
                if order_id == k && done
                then Option.map {A = OrderRecord F}
                    (λ r. record r { status = cancelled })
                    (get_order c k)
                else get_order c k))
        × (c'.account ≡ c.account)
  unfolding cancel_order get_order
  cancel_order_lem now c order_id = (
    elim (Option-cases (get_order c order_id)) [
      | inl e ↦ ground arith
      | inr (r, e) ↦ (λ h. (r, e, ground arith), λ a. ground arith)
    ],
    λ k. ground arith,
    ground arith,
  )
