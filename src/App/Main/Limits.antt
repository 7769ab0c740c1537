-- ===== src/App/Main/Limits.antt =====
-- The limits in force in every run of the program.
use frog_quant.Prelude.{◌≡◌, false}
use frog_quant.Double.{Double}
use frog_quant.Logger.{Logger}
use frog_quant.Core.Trading.{risk_config}
use frog_quant.App.Context.{ControlApiContext}
use frog_quant.App.Updates.{is_out_of_range}

module _ {F Q : Type 0} ⦃d : Double F⦄ where
  -- The core checks orders against the limits of the context, which GET /risk/config shows, and
  -- they are in range.
  pub record AreInForce (ctx : ControlApiContext F Q) : Type 0 where
    pub shown : risk_config ctx.core ≡ ctx.risk_cfg
    pub in_range : is_out_of_range ctx.risk_cfg ≡ false
