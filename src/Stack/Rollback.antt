-- ===== src/Stack/Rollback.antt =====
-- The handler linked with the plain flash writer: an image is confirmed, or given up, after an update.
use ota_ws_update.Base.{
  ℕ, ◌+◌, ◌≡◌, ◌≢◌, refl, Bool, true, false, none, some, Bytes, ◌==◌, ◌∷◌, codes, ◌&&◌,
  if◌then◌else◌,
}
use ota_ws_update.Esp.{EspErr, esp_ok, esp_fail, done, reboot}
use ota_ws_update.Jsmn.{JsmnParse}
use ota_ws_update.Device.{OtaApi}
use ota_ws_update.Http.Keys
use ota_ws_update.Http.Message.{check_rollback_message}
use ota_ws_update.Http.Session.{Session}
use ota_ws_update.Http.Json.{json_to_str_parm}
use ota_ws_update.Http.TextFrame.{IsTextFrame}
use ota_ws_update.Http.Handler.{Request, filled, ota_ws_handler}
use ota_ws_update.Http.Rollback.{
  true_key, other_key, handler-handshake, handler-rollback, handler-reboot,
}
use ota_ws_update.Plain.{EspOta, is_pending, check_ota_ws_rollback_enable, rollback_ota_ws, plain}

module _ (api : OtaApi) (jsmn_parse : JsmnParse) (chunk_config : ℕ) where
  -- A new connection gets the question exactly when rollback is configured and the running image waits
  -- to be confirmed; the handler returns ESP_OK and changes nothing else.
  plain_handshake :
      (rollback_enable : Bool) (req : Request) (w : Session (EspOta api.Dev))
      → req.is_get ≡ true
      → let d = w.backend.dev in
        let state = api.esp_ota_get_state_partition (api.esp_ota_get_running_partition d) d in
        ota_ws_handler (plain api rollback_enable) jsmn_parse chunk_config req w
        ≡ done esp_ok (record w {
          sent =
              if rollback_enable && is_pending state
              then check_rollback_message ∷ w.sent
              else w.sent;
        })
  unfolding check_ota_ws_rollback_enable
  plain_handshake true req w get =
      handler-handshake (plain api true) jsmn_parse chunk_config req w _ w.backend get refl
  plain_handshake false req w get =
      handler-handshake (plain api false) jsmn_parse chunk_config req w false w.backend get refl

  module _ (req : Request) (w : Session (EspOta api.Dev)) (value : Bytes) (t : IsTextFrame req)
      (h : (req.len == 0) ≡ false)
      (json : (s : Session (EspOta api.Dev))
        → json_to_str_parm jsmn_parse (some (filled req.len req.payload)) s
          ≡ done (record { ret = esp_ok; name = Keys.ota_process_rollback; value = value }) s) where
    -- "otaProcessRollback" with any value but "true", where rollback is configured: the running image
    -- is marked as valid, the handler returns what that returned, and nothing else changes.
    pub plain_confirm :
        value ≢ codes "true"
        → let r = api.esp_ota_mark_app_valid_cancel_rollback w.backend.dev in
          ota_ws_handler (plain api true) jsmn_parse chunk_config req w
          ≡ done r.0 (record w { backend = record (w.backend) { dev = r.1 } })
    unfolding rollback_ota_ws
    plain_confirm other =
        handler-rollback (plain api true) jsmn_parse chunk_config req w value t h json false _ _
          (other_key value other) refl

    -- "otaProcessRollback" with the value "true", where rollback is configured and the device restarts
    -- into the old image: the handler does not return, and the device is as that call has left it.
    pub plain_rollback :
        (d : api.Dev)
        → value ≡ codes "true"
        → api.esp_ota_mark_app_invalid_rollback_and_reboot w.backend.dev ≡ (none, d)
        → ota_ws_handler (plain api true) jsmn_parse chunk_config req w
          ≡ reboot
              (record w { backend = record (w.backend) { dev = d }; live_bufs = w.live_bufs + 1 })
    unfolding rollback_ota_ws
    plain_rollback d same restarts =
        handler-reboot (plain api true) jsmn_parse chunk_config req w value t h json true
          (record (w.backend) { dev = d }) (true_key value same) (rw restarts refl)

    -- The same where the device cannot give the running image up: the handler returns that error, and the
    -- device is as that call has left it.
    pub plain_rollback-refused :
        (err : EspErr) (d : api.Dev)
        → value ≡ codes "true"
        → api.esp_ota_mark_app_invalid_rollback_and_reboot w.backend.dev ≡ (some err, d)
        → ota_ws_handler (plain api true) jsmn_parse chunk_config req w
          ≡ done err (record w { backend = record (w.backend) { dev = d } })
    unfolding rollback_ota_ws
    plain_rollback-refused err d same refused =
        handler-rollback (plain api true) jsmn_parse chunk_config req w value t h json true err
          (record (w.backend) { dev = d }) (true_key value same) (rw refused refl)

    -- "otaProcessRollback" where rollback is not configured: ESP_FAIL, and nothing changes, whatever
    -- the value.
    plain_rollback-disabled :
        ota_ws_handler (plain api false) jsmn_parse chunk_config req w ≡ done esp_fail w
    unfolding rollback_ota_ws
    plain_rollback-disabled =
        handler-rollback (plain api false) jsmn_parse chunk_config req w value t h json _ esp_fail
          w.backend refl refl
