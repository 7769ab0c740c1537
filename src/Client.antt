-- ===== src/Client.antt =====
-- qt_client/src/api_client.cpp: `ApiClient`, which the pages of the Qt client call. A call is what it
-- asks Qt to send; a `QJsonObject` is the list of its fields in the order of their keys, in which Qt
-- keeps them.
pub mod Strategy
pub mod Trading
pub mod Panels
pub mod Wire
pub mod GridText
pub mod OrderText
pub mod OrderAccepted
pub mod Accepted
pub mod Answers
pub mod Dashboard
pub mod Pages
use frog_quant.Prelude.{
  ℕ, pos, Bool, true, false, ◌&&◌, Option, none, some, List, [], ◌∷◌, Text, bytes, leb, ltb,
}
use frog_quant.Double.{Double}

pub data Value (F : Type 0) : Type 0 where
  number : F → Value F
  string : Text → Value F
  boolean : Bool → Value F

abbrev pub Object : Type 0 → Type 0
Object F = List (Text × Value F)

pub record Call (F : Type 0) : Type 0 where
  pub method : Text
  pub path : Text
  pub object : Option (Object F)

module _ {F : Type 0} where
  unfoldable pub get : Text → Call F
  get path = record { method = bytes "GET"; path = path; object = none }

  unfoldable pub post : Text → Object F → Call F
  post path obj = record { method = bytes "POST"; path = path; object = some obj }

  unfoldable pub get_health : Call F
  unfolding get
  get_health = get (bytes "/health")

  unfoldable pub get_runtime : Call F
  unfolding get
  get_runtime = get (bytes "/strategy/grid/runtime")

  unfoldable pub get_effective_config : Call F
  unfolding get
  get_effective_config = get (bytes "/config/effective")

  unfoldable pub get_orders : Call F
  unfolding get
  get_orders = get (bytes "/orders")

  unfoldable pub get_events : Call F
  unfolding get
  get_events = get (bytes "/events")

  unfoldable pub get_credentials_status : Call F
  unfolding get
  get_credentials_status = get (bytes "/credentials/status")

  unfoldable pub get_risk_config : Call F
  unfolding get
  get_risk_config = get (bytes "/risk/config")

  unfoldable pub post_grid_config : Object F → Call F
  unfolding post
  post_grid_config obj = post (bytes "/strategy/grid/config") obj

  unfoldable pub post_grid_enable : Bool → Call F
  unfolding post
  post_grid_enable enabled =
      post (bytes "/strategy/grid/enable") ((bytes "enabled", boolean enabled) ∷ [])

  unfoldable pub post_manual_order : Object F → Call F
  unfolding post
  post_manual_order obj = post (bytes "/trade/manual/order") obj

  unfoldable pub post_credentials_update : Text → Text → Call F
  unfolding post
  post_credentials_update api_key secret_key =
      post (bytes "/credentials/update")
        ((bytes "api_key", string api_key) ∷ (bytes "secret_key", string secret_key) ∷ [])

  unfoldable pub post_risk_config : Object F → Call F
  unfolding post
  post_risk_config obj = post (bytes "/risk/config") obj

module _ {F : Type 0} ⦃d : Double F⦄ where
  unfoldable pub post_manual_cancel : ℕ → Call F
  unfolding post
  post_manual_cancel internal_order_id =
      post (bytes "/trade/manual/cancel")
        ((bytes "internal_order_id", number (d.of_int (pos internal_order_id))) ∷ [])

-- The last argument of `requestMetric`.
unfoldable pub is_ok : ℕ → Bool
is_ok code = leb 200 code && ltb code 300

-- What a click leads to: a warning, nothing since the question was not answered with yes, or a call.
pub data Click (F : Type 0) : Type 0 where
  warned declined : Click F
  sends : Call F → Click F

abbrev pub if_confirmed : {F : Type 0} → Bool → Call F → Click F
if_confirmed true call = sends call
if_confirmed false call = declined
