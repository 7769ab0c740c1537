-- ===== src/App/Live.antt =====
-- The orders of the router, sent by the execution client with the keys that the start-up found.
use frog_quant.Prelude.{
  ℕ, ◌≡◌, ◌≢◌, Option-cases, inl, inr, true, ◌&&◌, ◌||◌, not, none, some, Text, bytes, arith,
  if◌then◌else◌,
}
use frog_quant.Double.{Double, DoubleText}
use frog_quant.Strings.{is_empty}
use frog_quant.Core.Orders.{OrderRequest}
use frog_quant.Execution.{Network, order_query, place_order, price_part}
use frog_quant.Execution.Requests.{signed_request, place_order-Sends}
use frog_quant.App.Files.{Disk}
use frog_quant.App.Bootstrap.{Environment, BootstrapResult, ready, bootstrap}
use frog_quant.App.Bootstrap.Precedence.{bootstrap_lem}
use frog_quant.App.Trade.{exchange_order}

module _ {F : Type 0} ⦃d : Double F⦄ ⦃t : DoubleText F⦄ where
  -- The router gives a limit order its price.
  priced :
      (now : ℕ) (req : OrderRequest F) (id : ℕ) → order_query now (exchange_order req id) ≢ none
  unfolding order_query exchange_order price_part
  priced now req id = ground arith

  -- After a start-up that succeeds, every order that the router hands to the execution client
  -- has a query, and goes on the wire as one request that is signed with the start-up's keys, unless
  -- it is a dry run: then nothing is sent. Both keys are there but in a dry run. This needs that
  -- libcurl has a handle.
  pub exchange_order-sent :
      (env : Environment) (disk : Disk) (bs : BootstrapResult F) (net : Network) (now : ℕ)
      (req : OrderRequest F) (id : ℕ)
      → bootstrap env disk ≡ ready bs
      → net.has_handle ≡ true
      → let (r, sent) = place_order net bs.exec_cfg now (exchange_order req id) in
        (query : Text) × (order_query now (exchange_order req id) ≡ some query)
        × (sent ≡ (
            if bs.exec_cfg.dry_run
            then none
            else some (signed_request net bs.exec_cfg (bytes "POST") query)))
        × ((bs.exec_cfg.dry_run
              || (not (is_empty bs.exec_cfg.api_key) && not (is_empty bs.exec_cfg.secret_key)))
            ≡ true)
  exchange_order-sent env disk bs net now req id started handle =
      let b = bootstrap_lem env disk bs started in
      elim (Option-cases (order_query now (exchange_order req id))) [
        | inl e ↦ absurd (priced now req id e)
        | inr (query, e) ↦ (
          query,
          e,
          ground (
            arith,
            (place_order-Sends net bs.exec_cfg now (exchange_order req id) query e).0,
            b.1,
          ),
          b.1,
        )
      ]
