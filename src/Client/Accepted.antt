-- ===== src/Client/Accepted.antt =====
-- The form for the grid on qt_client/src/pages/strategy_page.cpp, and the server's answer to what it
-- sends. The server searches the printed object for its keys; what it finds of each number is what
-- Qt printed, and the form's check is no weaker than the server's.
use frog_quant.Prelude.{
  ◌≡◌, refl, ◌∙◌, Bool, true, false, some, Text, bytes, arith, ℤ, ◌&&◌, pos, ltb_ℤ, leb_ℤ,
}
use frog_quant.Double.{Double, DoubleText, IsOrdered, nought}
use frog_quant.App.Json.{json_get_number, json_get_int}
use frog_quant.Logger.{LogQueue}
use frog_quant.App.Context.{ControlApiContext, Clock}
use frog_quant.App.Handlers.{bad_request, success}
use frog_quant.App.Updates.{post_grid, patched_grid}
use frog_quant.App.Router.{handle, route, obey}
use frog_quant.App.Router.Grids.{post_grid_lem}
use frog_quant.App.Server.{router}
use frog_quant.Control.{answer}
use frog_quant.Client.{Call, sends, post_grid_config, post}
use frog_quant.Client.Strategy.{GridForm, grid_object, apply_clicked, is_valid_form, is_within}
use frog_quant.Client.Wire.{QtJson, compact, IsCompact, IsReadBack, request_of}
use frog_quant.Client.GridText.{to_json-grid, get-levels, get-order_qty}

module _ {F : Type 0} ⦃d : Double F⦄ where
  is_within-bounds :
      (x high : F)
      → IsOrdered F
      → is_within x high ≡ true
      → (d.le x nought ≡ false) × (d.lt high x ≡ false)
  is_within-bounds x high h e =
      let lower = h.le_of_lt nought x in
      let ends = h.le-number x high in
      ground
        (arith, lower, ends, h.le-number nought x, h.lt-eq-not-le nought x, h.lt-eq-not-le high x)

module _ {F : Type 0} ⦃d : Double F⦄ where
  is_valid_form-parts :
      (f : GridForm F)
      → is_valid_form f ≡ true
      → ((leb_ℤ (pos 2) f.levels && leb_ℤ f.levels (pos 200)) ≡ true)
        × (is_within f.order_qty (d.lit 1000 0) ≡ true)
  unfolding is_valid_form
  is_valid_form-parts f h = ground arith

  apply_clicked-sends :
      (confirmed : Bool) (f : GridForm F) (call : Call F)
      → apply_clicked confirmed f ≡ sends call
      → (is_valid_form f ≡ true) × (call ≡ post_grid_config (grid_object f))
  unfolding apply_clicked
  apply_clicked-sends confirmed f call h = ground arith

levels-bounds :
    (n : ℤ)
    → (leb_ℤ (pos 2) n && leb_ℤ n (pos 200)) ≡ true
    → (ltb_ℤ n (pos 2) ≡ false) × (ltb_ℤ (pos 200) n ≡ false)
levels-bounds n h = ground arith

module _ {F Q : Type 0} ⦃d : Double F⦄ ⦃t : DoubleText F⦄ where
  post_grid-fits :
      (body : Text) (ctx : ControlApiContext F Q)
      → let g = patched_grid {F = F} body ctx.grid.cfg in
        (ltb_ℤ g.levels (pos 2) ≡ false)
        → (ltb_ℤ (pos 200) g.levels ≡ false)
        → (d.le g.order_qty nought ≡ false)
        → (d.lt (d.lit 1000 0) g.order_qty ≡ false)
        → (post_grid body ctx).1.status ≡ 200
  unfolding post_grid bad_request success
  post_grid-fits body ctx h1 h2 h3 h4 = rw (h1, h2, h3, h4) refl

  -- The values of a form that passes the check pass the server's.
  post_grid-accepts :
      (body : Text) (ctx : ControlApiContext F Q) (f : GridForm F)
      → IsOrdered F
      → is_valid_form f ≡ true
      → json_get_int d t body (bytes "levels") ≡ some f.levels
      → json_get_number body (bytes "order_qty") ≡ some f.order_qty
      → (post_grid body ctx).1.status ≡ 200
  unfolding patched_grid
  post_grid-accepts body ctx f ordered valid levels qty =
      let parts = is_valid_form-parts f valid in
      let within = is_within-bounds f.order_qty (d.lit 1000 0) ordered parts.1 in
      let bounds = levels-bounds f.levels parts.0 in
      post_grid-fits body ctx (rw levels bounds.0) (rw levels bounds.1) (rw qty within.0)
        (rw qty within.1)

  grid_taken :
      (body : Text) (ctx : ControlApiContext F Q) (f : GridForm F)
      → json_get_int d t body (bytes "levels") ≡ some f.levels
      → json_get_number body (bytes "order_qty") ≡ some f.order_qty
      → let g = patched_grid {F = F} body ctx.grid.cfg in
        (g.levels ≡ f.levels) × (g.order_qty ≡ f.order_qty)
  unfolding patched_grid
  grid_taken body ctx f levels qty = (rw levels refl, rw qty refl)

  post_grid-taken :
      (body : Text) (ctx : ControlApiContext F Q) (f : GridForm F)
      → (post_grid body ctx).1.status ≡ 200
      → json_get_int d t body (bytes "levels") ≡ some f.levels
      → json_get_number body (bytes "order_qty") ≡ some f.order_qty
      → let r = post_grid {F = F} body ctx in
        (r.1.status ≡ 200)
        × (r.0.grid.cfg.levels ≡ f.levels)
        × (r.0.grid.cfg.order_qty ≡ f.order_qty)
  post_grid-taken body ctx f e levels qty =
      let taken = grid_taken body ctx f levels qty in
      let done = post_grid_lem body ctx (rw e refl) in (e, done.1 ∙ taken.0, done.2 ∙ taken.1)

  answer_grid :
      (qt : QtJson F) (clock : Clock) (ctx : ControlApiContext F Q) (f : GridForm F)
      → ⦃q : LogQueue F Q⦄
      → answer router clock (request_of qt (post_grid_config (grid_object f))) ctx
        ≡ post_grid (qt.to_json (grid_object f)) ctx
  unfolding answer router handle route obey request_of post_grid_config post
  answer_grid qt clock ctx f = refl

module _ {F Q : Type 0} ⦃d : Double F⦄ ⦃t : DoubleText F⦄ ⦃q : LogQueue F Q⦄ where
  -- What the button for the grid sends, if it sends anything, the server answers with 200, and the
  -- grid then has the number of levels and the quantity of the form: if Qt prints both as plain
  -- decimals that are read back, the number of levels is the same after its way through a double,
  -- objects are printed compactly, and doubles compare as in IEEE 754.
  pub apply_clicked-accepted :
      (qt : QtJson F) (confirmed : Bool) (f : GridForm F) (call : Call F) (clock : Clock)
      (ctx : ControlApiContext F Q)
      → IsOrdered F
      → IsCompact qt
      → IsReadBack qt (d.of_int f.levels)
      → IsReadBack qt f.order_qty
      → d.to_int (d.of_int f.levels) ≡ f.levels
      → apply_clicked confirmed f ≡ sends call
      → let r = answer router clock (request_of qt call) ctx in
        (r.1.status ≡ 200)
        × (r.0.grid.cfg.levels ≡ f.levels)
        × (r.0.grid.cfg.order_qty ≡ f.order_qty)
  apply_clicked-accepted qt confirmed f call clock ctx ordered printer levels qty whole h =
      let sent = apply_clicked-sends confirmed f call h in
      let read_levels = get-levels qt f printer levels whole in
      let read_qty = get-order_qty qt f printer qty in
      rw (sent.1, answer_grid qt clock ctx f, to_json-grid qt f printer)
        (post_grid-taken (compact qt (grid_object f)) ctx f
          (post_grid-accepts (compact qt (grid_object f)) ctx f ordered sent.0 read_levels read_qty)
          read_levels read_qty)
