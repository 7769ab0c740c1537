-- ===== src/App/Router/Grids.antt =====
-- What the route for the grid's configuration lets through.
use frog_quant.Prelude.{◌≡◌, pos, true, false, Text, arith, ltb_ℤ, ◌==◌}
use frog_quant.Double.{Double, DoubleText, nought}
use frog_quant.Grid.{update_config, sanitize_config, rebuild_grid}
use frog_quant.App.Context.{ControlApiContext, push_event}
use frog_quant.App.Handlers.{bad_request, success}
use frog_quant.App.Updates.{post_grid, patched_grid}

module _ {F Q : Type 0} ⦃d : Double F⦄ ⦃t : DoubleText F⦄ where
  -- A new configuration of the grid that is answered with 200 has been taken over, but for ratios
  -- that are too small: it is the sanitized configuration with the fields of the body, whose
  -- number of levels lies in [2, 200] and whose quantity lies in (0, 1000] and is taken over as it
  -- is. It builds the grid anew around the old anchor, if there is one.
  pub post_grid_lem :
      (body : Text) (ctx : ControlApiContext F Q)
      → ((post_grid body ctx).1.status == 200) ≡ true
      → let g = patched_grid {F = F} body ctx.grid.cfg in
        let grid = (post_grid body ctx).0.grid in
        (grid.cfg ≡ sanitize_config g)
        × (grid.cfg.levels ≡ g.levels)
        × (grid.cfg.order_qty ≡ g.order_qty)
        × (ltb_ℤ grid.cfg.levels (pos 2) ≡ false)
        × (ltb_ℤ (pos 200) grid.cfg.levels ≡ false)
        × (d.le grid.cfg.order_qty nought ≡ false)
        × (d.lt (d.lit 1000 0) grid.cfg.order_qty ≡ false)
  unfolding post_grid update_config rebuild_grid sanitize_config push_event bad_request success
  post_grid_lem body ctx h = (
    ground arith,
    ground arith,
    ground arith,
    ground arith,
    ground arith,
    ground arith,
    ground arith,
  )
