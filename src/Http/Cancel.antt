-- ===== src/Http/Cancel.antt =====
-- "otaCancel" and "otaError": the update is given up.
use ota_ws_update.Base.{ℕ, ◌+◌, ◌-◌, ◌≡◌, refl, false, some, arith, ◌==◌, Bytes, codes, ◌∷◌}
use ota_ws_update.Text.{strncmp_is_zero}
use ota_ws_update.Esp.{EspErr, esp_ok, done, crash, Fault}
use ota_ws_update.Backend.{Backend}
use ota_ws_update.Jsmn.{JsmnParse}
use ota_ws_update.Http.Keys
use ota_ws_update.Http.Message.{error_message}
use ota_ws_update.Http.Session.{Session, calloc_buf, free_buf}
use ota_ws_update.Http.Json.{json_to_str_parm}
use ota_ws_update.Http.TextFrame.{IsTextFrame}
use ota_ws_update.Http.Handler.{
  Request, filled, is_key, receive_frame, received, recv_ret, process_frame, text_frame, parsed,
  command, behind_size, other_command, ota_ws_handler,
}

-- The session once the flash writer has aborted and the client was told.
abbrev pub cancelled : {B : Type 0} → B → Session B → Session B
cancelled b w = record w {
  ota_size = 0;
  ota_start_chunk = 0;
  ota_started = 0;
  backend = b;
  sent = error_message Keys.ota_cancel (codes "Cancel command") ∷ w.sent;
}

restored : (n : ℕ) → n + 1 - 1 ≡ n
restored n = omega arith

module _ (be : Backend) (jsmn_parse : JsmnParse) (chunk_config : ℕ) where
  command-cancel :
      (value : Bytes) (w : Session be.State) (ret : EspErr) (b : be.State)
      → be.abort_ota_ws w.backend ≡ done ret b
      → command be jsmn_parse chunk_config Keys.ota_cancel value w ≡ done esp_ok (cancelled b w)
  unfolding command other_command behind_size is_key strncmp_is_zero
  command-cancel value w ret b aborts = rw aborts refl

  command-cancel_crash :
      (value : Bytes) (w : Session be.State) (f : Fault)
      → be.abort_ota_ws w.backend ≡ crash f
      → command be jsmn_parse chunk_config Keys.ota_cancel value w ≡ crash f
  unfolding command other_command behind_size is_key strncmp_is_zero
  command-cancel_crash value w f aborts = rw aborts refl

  module _ (req : Request) (w : Session be.State) (value : Bytes) (t : IsTextFrame req)
      (h : (req.len == 0) ≡ false)
      (json : (s : Session be.State)
        → json_to_str_parm jsmn_parse (some (filled req.len req.payload)) s
          ≡ done (record { ret = esp_ok; name = Keys.ota_cancel; value = value }) s) where
    -- An "otaCancel" frame that arrives whole, where the flash writer's abort returns: whatever that
    -- returns, the handler returns ESP_OK, the counters are zero, the flash writer has been told to
    -- abort once and nothing else, and the client gets "otaCancel" back.
    pub ota_ws_handler-cancel :
        (ret : EspErr) (b : be.State)
        → be.abort_ota_ws w.backend ≡ done ret b
        → ota_ws_handler be jsmn_parse chunk_config req w ≡ done esp_ok (cancelled b w)
    unfolding ota_ws_handler receive_frame received process_frame text_frame parsed recv_ret
        calloc_buf free_buf
    ota_ws_handler-cancel ret b aborts =
        let run = command-cancel value (record w { live_bufs = w.live_bufs + 1 }) ret b aborts in
        simp (t.not_get, t.has_len, t.is_text, t.allocated, t.has_payload, h, json, run, restored)

    -- Where the flash writer's abort has undefined behaviour, so has the handler.
    pub ota_ws_handler-cancel_crash :
        (f : Fault)
        → be.abort_ota_ws w.backend ≡ crash f
        → ota_ws_handler be jsmn_parse chunk_config req w ≡ crash f
    unfolding ota_ws_handler receive_frame received process_frame text_frame parsed recv_ret
        calloc_buf
    ota_ws_handler-cancel_crash f aborts =
        let run = command-cancel_crash value (record w { live_bufs = w.live_bufs + 1 }) f aborts in
        simp (t.not_get, t.has_len, t.is_text, t.allocated, t.has_payload, h, json, run)
