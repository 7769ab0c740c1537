-- ===== src/App/Router/Bounds.antt =====
-- The caches of events and orders under requests.
use frog_quant.Prelude.{
  ℕ, ◌≤◌, min, Bool, Option, none, some, List, [], ◌∷◌, ◌++◌, Text, arith, bytes, length,
  Option-cases, inl, inr, show_nat, length-append, length-drop,
}
use frog_quant.Double.{Double, DoubleText}
use frog_quant.Logger.{LogQueue}
use frog_quant.App.Context.{
  ControlApiContext, ApiOrderItem, Clock, push_event, push_order, pushed_event, pushed_order,
}
use frog_quant.Core.Orders.{OrderRequest, OrderRecord}
use frog_quant.App.Format.{show_bool}
use frog_quant.App.Json.{json_get_bool, json_get_number}
use frog_quant.App.Handlers.{post_credentials, post_enable, saved, set_enabled}
use frog_quant.App.Updates.{post_grid, post_risk}
use frog_quant.App.Trade.{
  post_order, post_cancel, submit_order, after_submit, order_item, look_up, cancel_by_id,
  read_order,
}
use frog_quant.Core.Trading.{TradingCore, submit_manual_order, get_order}
use frog_quant.App.Router.{
  Command, view, command, route, handle, obey, update_credentials, enable, update_grid, update_risk,
  place_order, cancel,
}

length-pushed_event :
    (n : ℕ) (es : List Text) (e : Text) → 1 ≤ n → length es ≤ n → length (pushed_event n es e) ≤ n
unfolding pushed_event
length-pushed_event n es e h k =
    ground (arith, length-append es (e ∷ []), length-drop 1 (es ++ e ∷ []))

length-pushed_order :
    (n batch : ℕ) (os : List ApiOrderItem) (o : ApiOrderItem)
    → 1 ≤ batch
    → length os ≤ n
    → length (pushed_order n batch os o) ≤ n
unfolding pushed_order
length-pushed_order n batch os o h k = ground (
  arith,
  length-append os (o ∷ []),
  length-drop (min batch (length (os ++ o ∷ []))) (os ++ o ∷ []),
)

module _ {F Q : Type 0} where
  -- The caches hold no more than their bounds, which leave room for one event, and some orders go
  -- when the list of orders is full.
  pub record IsBounded (m n : ℕ) (ctx : ControlApiContext F Q) : Type 0 where
    pub events : length ctx.events ≤ ctx.max_events
    pub orders : length ctx.orders ≤ ctx.max_orders
    pub room : 1 ≤ ctx.max_events
    pub batch : 1 ≤ ctx.order_trim_batch
    pub events_bound : ctx.max_events ≤ m
    pub orders_bound : ctx.max_orders ≤ n

module _ {F Q : Type 0} {m n : ℕ} where
  pub push_event-IsBounded :
      (e : Text) (ctx : ControlApiContext F Q)
      → IsBounded m n ctx
      → IsBounded m n (push_event e ctx)
  unfolding push_event
  push_event-IsBounded e ctx h = record {
    events = length-pushed_event ctx.max_events ctx.events e h.room h.events;
    orders = h.orders;
    room = h.room;
    batch = h.batch;
    events_bound = h.events_bound;
    orders_bound = h.orders_bound;
  }

  push_order-IsBounded :
      (o : ApiOrderItem) (ctx : ControlApiContext F Q)
      → IsBounded m n ctx
      → IsBounded m n (push_order o ctx)
  unfolding push_order
  push_order-IsBounded o ctx h = record {
    events = h.events;
    orders = length-pushed_order ctx.max_orders ctx.order_trim_batch ctx.orders o h.batch h.orders;
    room = h.room;
    batch = h.batch;
    events_bound = h.events_bound;
    orders_bound = h.orders_bound;
  }

module _ {F Q : Type 0} ⦃d : Double F⦄ ⦃t : DoubleText F⦄ ⦃q : LogQueue F Q⦄ {m n : ℕ} where
  -- The bound after one more event, for each event that a request may add.
  event_fits :
      (e : Text) (ctx : ControlApiContext F Q)
      → IsBounded m n ctx
      → length (pushed_event ctx.max_events ctx.events e) ≤ ctx.max_events
  event_fits e ctx h = length-pushed_event ctx.max_events ctx.events e h.room h.events

  after_submit-IsBounded :
      (now : ℕ) (req : OrderRequest F) (id : ℕ) (ord : OrderRecord F) (ctx : ControlApiContext F Q)
      → IsBounded m n ctx
      → IsBounded m n (after_submit now req id ord ctx).0
  unfolding after_submit push_event push_order
  after_submit-IsBounded now req id ord ctx h = ground (
    arith,
    event_fits (bytes "manual_order id=" ++ show_nat id) ctx h,
    length-pushed_order ctx.max_orders ctx.order_trim_batch ctx.orders (order_item id ord now)
        h.batch h.orders,
    h.room,
    h.batch,
    h.events_bound,
    h.orders_bound,
  )

  post_enable-IsBounded :
      (en : Option Bool) (ctx : ControlApiContext F Q)
      → IsBounded m n ctx
      → IsBounded m n (set_enabled en ctx).0
  unfolding set_enabled push_event saved
  post_enable-IsBounded none ctx h = h
  post_enable-IsBounded (some en) ctx h = ground (
    arith,
    event_fits (bytes "strategy_enable=" ++ show_bool en) ctx h,
    h.orders,
    h.room,
    h.batch,
    h.events_bound,
    h.orders_bound,
  )

  look_up-IsBounded :
      (now : ℕ) (req : OrderRequest F) (id : ℕ) (found : Option (OrderRecord F))
      (ctx : ControlApiContext F Q)
      → IsBounded m n ctx
      → IsBounded m n (look_up now req id found ctx).0
  unfolding look_up
  look_up-IsBounded now req id none ctx h = h
  look_up-IsBounded now req id (some ord) ctx h = after_submit-IsBounded now req id ord ctx h

  -- Another core leaves the caches alone.
  with_core-IsBounded :
      (core : TradingCore F Q) (ctx : ControlApiContext F Q)
      → IsBounded m n ctx
      → IsBounded m n (record ctx { core = core })
  with_core-IsBounded core ctx h = record {
    events = h.events;
    orders = h.orders;
    room = h.room;
    batch = h.batch;
    events_bound = h.events_bound;
    orders_bound = h.orders_bound;
  }

  post_order-IsBounded :
      (clock : Clock) (body : Text) (ctx : ControlApiContext F Q)
      → IsBounded m n ctx
      → IsBounded m n (post_order clock body ctx).0
  unfolding post_order submit_order
  post_order-IsBounded clock body ctx h =
      let req = read_order ctx.cfg.symbol body in
      let r = submit_manual_order clock.first clock.second ctx.core req in
      ground (
        arith,
        look_up-IsBounded clock.third req r.1 (get_order r.0 r.1) (record ctx { core = r.0 })
            (with_core-IsBounded r.0 ctx h),
      )

  cancel_by_id-IsBounded :
      (now : ℕ) (x : Option F) (ctx : ControlApiContext F Q)
      → IsBounded m n ctx
      → IsBounded m n (cancel_by_id now x ctx).0
  unfolding cancel_by_id push_event
  cancel_by_id-IsBounded now none ctx h = h
  cancel_by_id-IsBounded now (some x) ctx h = ground (
    arith,
    event_fits (bytes "manual_cancel id=" ++ show_nat (d.to_u64 x)) ctx h,
    h.orders,
    h.room,
    h.batch,
    h.events_bound,
    h.orders_bound,
  )

  obey-IsBounded :
      (c : Command) (clock : Clock) (body : Text) (ctx : ControlApiContext F Q)
      → IsBounded m n ctx
      → IsBounded m n (obey c clock body ctx).0
  unfolding obey post_credentials post_enable post_grid post_risk post_cancel push_event saved
  obey-IsBounded update_credentials clock body ctx h = ground (
    arith,
    event_fits (bytes "credentials_updated(restart_required)") ctx h,
    h.events,
    h.orders,
    h.room,
    h.batch,
    h.events_bound,
    h.orders_bound,
  )
  obey-IsBounded enable clock body ctx h =
      post_enable-IsBounded (json_get_bool body (bytes "enabled")) ctx h
  obey-IsBounded update_grid clock body ctx h = ground (
    arith,
    event_fits (bytes "grid_config_updated") ctx h,
    h.events,
    h.orders,
    h.room,
    h.batch,
    h.events_bound,
    h.orders_bound,
  )
  obey-IsBounded update_risk clock body ctx h = ground (
    arith,
    event_fits (bytes "risk_config_updated") ctx h,
    h.events,
    h.orders,
    h.room,
    h.batch,
    h.events_bound,
    h.orders_bound,
  )
  obey-IsBounded place_order clock body ctx h = post_order-IsBounded clock body ctx h
  obey-IsBounded cancel clock body ctx h =
      cancel_by_id-IsBounded clock.first (json_get_number body (bytes "internal_order_id")) ctx h

  pub handle-IsBounded :
      (clock : Clock) (method target body : Text) (ctx : ControlApiContext F Q)
      → IsBounded m n ctx
      → IsBounded m n (handle clock method target body ctx).0
  unfolding handle
  handle-IsBounded clock method target body ctx h = elim (Option-cases (route method target)) [
    | inl none? ↦ ground (arith, h)
    | inr (view v, is_v) ↦ ground (arith, h)
    | inr (command c, is_c) ↦ ground (arith, obey-IsBounded c clock body ctx h)
  ]
