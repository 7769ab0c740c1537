-- ===== src/App/Handlers.antt =====
-- The routes of app/control_api_router.cpp that show the state, and those that change the
-- credentials and the switch of the strategy.
use frog_quant.Prelude.{
  ℕ, ◌*◌, ◌/◌, ◌%◌, ◌^◌, Bool, not, ◌&&◌, ◌||◌, Option, none, some, [], ◌∷◌, ◌++◌, Text, bytes,
  show_nat, if◌then◌else◌, ltb, get_or_else,
}
use frog_quant.Double.{DoubleText}
use frog_quant.Grid.{runtime_view}
use frog_quant.Strings.{is_empty}
use frog_quant.Control.{Response}
use frog_quant.App.Json.{json_get_bool, json_get_string}
use frog_quant.App.Files.{read_credentials_file, write_credentials_file}
use frog_quant.App.RuntimeState.{save_runtime_state}
use frog_quant.App.Format.{show_bool, joined, effective_config_json, runtime_to_json}
use frog_quant.App.Context.{ControlApiContext, push_event, sub_u64, u64_of_int}

unfoldable pub bad_request : Text → Response
bad_request resp = record { status = 400; body = resp }

unfoldable pub server_error : Text → Response
server_error resp = record { status = 500; body = resp }

unfoldable pub success : Text → Response
success resp = record { status = 200; body = resp }

abbrev pub ok_text : Text
ok_text = bytes "{\"ok\":true,\"code\":\"OK\"}"

module _ {F Q : Type 0} where
  -- Whether the last tick is too long ago.
  unfoldable pub is_stale : ℕ → ControlApiContext F Q → Bool
  is_stale now ctx =
      ltb 0 ctx.last_tick_ms
      && ltb (u64_of_int ctx.cfg.health_unhealthy_after_no_tick_sec * 1000 % 2 ^ 64)
          (sub_u64 now ctx.last_tick_ms)

  unfoldable pub get_health : ℕ → ControlApiContext F Q → Response
  unfolding is_stale joined show_nat
  get_health now ctx =
      let stale = is_stale now ctx in
      record {
        status = if stale then 503 else 200;
        body = joined (
            bytes "{\"ok\":"
            ∷ show_bool (not stale)
            ∷ bytes ",\"api_version\":\"v1.2\",\"core\":\"running\",\"dry_run\":"
            ∷ show_bool ctx.exec_cfg.dry_run
            ∷ bytes ",\"uptime_sec\":"
            ∷ show_nat (sub_u64 now ctx.start_ms / 1000)
            ∷ bytes ",\"tick_count\":"
            ∷ show_nat ctx.tick_count
            ∷ bytes ",\"last_tick_ms\":"
            ∷ show_nat ctx.last_tick_ms
            ∷ bytes ",\"strategy_enabled\":"
            ∷ show_bool ctx.strategy_enabled
            ∷ bytes ",\"stale_tick\":"
            ∷ show_bool stale
            ∷ bytes "}"
            ∷ []);
      }

  unfoldable pub get_credentials : ControlApiContext F Q → Response
  unfolding read_credentials_file joined success
  get_credentials ctx =
      let ((k, s), _) = read_credentials_file ctx.disk ctx.cfg.credentials_path ([], []) in
      success (
        joined (
          bytes "{\"ok\":true,\"api_key_set\":"
          ∷ show_bool (not (is_empty ctx.exec_cfg.api_key) || not (is_empty k))
          ∷ bytes ",\"secret_set\":"
          ∷ show_bool (not (is_empty ctx.exec_cfg.secret_key) || not (is_empty s))
          ∷ bytes ",\"path\":\""
          ∷ ctx.cfg.credentials_path
          ∷ bytes "\"}"
          ∷ []))

  unfoldable pub post_credentials : Text → ControlApiContext F Q → ControlApiContext F Q × Response
  unfolding write_credentials_file json_get_string push_event bad_request server_error success
  post_credentials body ctx =
      let k = get_or_else (json_get_string body (bytes "api_key")) [] in
      let s = get_or_else (json_get_string body (bytes "secret_key")) [] in
      let (disk, written) = write_credentials_file ctx.disk ctx.cfg.credentials_path k s in
      if is_empty k || is_empty s
      then (
        ctx,
        bad_request (
            bytes
              "{\"ok\":false,\"code\":\"E_BAD_REQUEST\",\"error\":\"api_key and secret_key required\"}"),
      )
      else if not written
      then (
        record ctx { disk = disk },
        server_error (
            bytes
              "{\"ok\":false,\"code\":\"E_WRITE_FAILED\",\"error\":\"cannot write credentials file\"}"),
      )
      else (
        push_event (bytes "credentials_updated(restart_required)") (record ctx { disk = disk }),
        success (bytes "{\"ok\":true,\"code\":\"OK\",\"restart_required\":true}"),
      )

module _ {F Q : Type 0} ⦃t : DoubleText F⦄ where
  unfoldable pub get_runtime : ControlApiContext F Q → Response
  unfolding runtime_to_json runtime_view success
  get_runtime ctx = success (runtime_to_json (runtime_view ctx.grid) ctx.strategy_enabled)

  unfoldable pub get_config : ControlApiContext F Q → Response
  unfolding effective_config_json success
  get_config ctx = success (effective_config_json ctx.cfg)

  -- `save_runtime_state(…)`, whose result the handler ignores
  unfoldable pub saved : ControlApiContext F Q → ControlApiContext F Q
  unfolding save_runtime_state
  saved ctx = record ctx {
    disk =
        (save_runtime_state ctx.disk ctx.cfg.runtime_state_path ctx.strategy_enabled
          ctx.risk_cfg).0;
  }

  unfoldable pub set_enabled :
      Option Bool → ControlApiContext F Q → ControlApiContext F Q × Response
  unfolding saved push_event bad_request success joined
  set_enabled none ctx = (
    ctx,
    bad_request
        (bytes "{\"ok\":false,\"code\":\"E_BAD_REQUEST\",\"error\":\"enabled(boolean) required\"}"),
  )
  set_enabled (some en) ctx = (
    push_event (bytes "strategy_enable=" ++ show_bool en)
        (saved (record ctx { strategy_enabled = en })),
    success (
        joined (bytes "{\"ok\":true,\"code\":\"OK\",\"enabled\":" ∷ show_bool en ∷ bytes "}" ∷ [])),
  )

  unfoldable pub post_enable : Text → ControlApiContext F Q → ControlApiContext F Q × Response
  unfolding json_get_bool set_enabled
  post_enable body ctx = set_enabled (json_get_bool body (bytes "enabled")) ctx

  unfoldable pub get_risk : ControlApiContext F Q → Response
  unfolding joined success
  get_risk ctx = success (
      joined (
        bytes "{\"ok\":true,\"max_single_order_notional_usd\":"
        ∷ t.to_string ctx.risk_cfg.max_single_order_notional_usd
        ∷ bytes ",\"max_position_ratio\":"
        ∷ t.to_string ctx.risk_cfg.max_position_ratio
        ∷ bytes ",\"daily_loss_stop_ratio\":"
        ∷ t.to_string ctx.risk_cfg.daily_loss_stop_ratio
        ∷ bytes "}"
        ∷ []))
