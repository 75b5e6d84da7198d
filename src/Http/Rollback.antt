-- ===== src/Http/Rollback.antt =====
-- The handshake of a new connection, and the "otaProcessRollback" command.
use ota_ws_update.Base.{
  ℕ, ◌+◌, ◌-◌, ◌≡◌, ◌≢◌, refl, Bool, true, false, some, arith, ◌==◌, Bytes, codes, ◌∷◌, Bool-cases,
  inl, inr, if◌then◌else◌,
}
use ota_ws_update.Text.{strncmp_is_zero}
use ota_ws_update.Text.Laws.{strncmp_is_zero_iff}
use ota_ws_update.Esp.{EspErr, esp_ok, done, reboot}
use ota_ws_update.Backend.{Backend}
use ota_ws_update.Jsmn.{JsmnParse}
use ota_ws_update.Http.Keys
use ota_ws_update.Http.Message.{check_rollback_message}
use ota_ws_update.Http.Session.{Session, calloc_buf, free_buf}
use ota_ws_update.Http.Json.{json_to_str_parm}
use ota_ws_update.Http.TextFrame.{IsTextFrame}
use ota_ws_update.Http.Handler.{
  Request, filled, is_key, receive_frame, received, recv_ret, process_frame, text_frame, parsed,
  command, behind_size, other_command, handshake, ota_ws_handler,
}

restored : (n : ℕ) → n + 1 - 1 ≡ n
restored n = omega arith

pub true_key : (value : Bytes) → value ≡ codes "true" → is_key value (codes "true") ≡ true
unfolding is_key
true_key value e = (strncmp_is_zero_iff value (codes "true")).1 e

pub other_key : (value : Bytes) → value ≢ codes "true" → is_key value (codes "true") ≡ false
unfolding is_key
other_key value ne = elim (Bool-cases (strncmp_is_zero value (codes "true") 5)) [
  | inl same ↦ absurd (ne ((strncmp_is_zero_iff value (codes "true")).0 same))
  | inr other ↦ other
]

module _ (be : Backend) (jsmn_parse : JsmnParse) (chunk_config : ℕ) where
  pub handler-handshake :
      (req : Request) (w : Session be.State) (pending : Bool) (b : be.State)
      → req.is_get ≡ true
      → be.check_ota_ws_rollback_enable w.backend ≡ done pending b
      → ota_ws_handler be jsmn_parse chunk_config req w
        ≡ done esp_ok (record w {
          backend = b;
          sent = if pending then check_rollback_message ∷ w.sent else w.sent;
        })
  unfolding ota_ws_handler handshake
  handler-handshake req w true b get checks = rw (get, checks) refl
  handler-handshake req w false b get checks = rw (get, checks) refl

  command-rollback :
      (value : Bytes) (rollback : Bool) (w : Session be.State) (ret : EspErr) (b : be.State)
      → is_key value (codes "true") ≡ rollback
      → be.rollback_ota_ws rollback w.backend ≡ done ret b
      → command be jsmn_parse chunk_config Keys.ota_process_rollback value w
        ≡ done ret (record w { backend = b })
  unfolding command other_command behind_size is_key strncmp_is_zero
  command-rollback value rollback w ret b key run = rw (key, run) refl

  command-reboot :
      (value : Bytes) (rollback : Bool) (w : Session be.State) (b : be.State)
      → is_key value (codes "true") ≡ rollback
      → be.rollback_ota_ws rollback w.backend ≡ reboot b
      → command be jsmn_parse chunk_config Keys.ota_process_rollback value w
        ≡ reboot (record w { backend = b })
  unfolding command other_command behind_size is_key strncmp_is_zero
  command-reboot value rollback w b key run = rw (key, run) refl

  module _ (req : Request) (w : Session be.State) (value : Bytes) (t : IsTextFrame req)
      (h : (req.len == 0) ≡ false)
      (json : (s : Session be.State)
        → json_to_str_parm jsmn_parse (some (filled req.len req.payload)) s
          ≡ done (record { ret = esp_ok; name = Keys.ota_process_rollback; value = value }) s) where
    pub handler-rollback :
        (rollback : Bool) (ret : EspErr) (b : be.State)
        → is_key value (codes "true") ≡ rollback
        → be.rollback_ota_ws rollback w.backend ≡ done ret b
        → ota_ws_handler be jsmn_parse chunk_config req w ≡ done ret (record w { backend = b })
    unfolding ota_ws_handler receive_frame received process_frame text_frame parsed recv_ret
        calloc_buf free_buf
    handler-rollback rollback ret b key run =
        let done_so =
          command-rollback value rollback (record w { live_bufs = w.live_bufs + 1 }) ret b key
            run in
        simp
          (t.not_get, t.has_len, t.is_text, t.allocated, t.has_payload, h, json, done_so, restored)

    pub handler-reboot :
        (rollback : Bool) (b : be.State)
        → is_key value (codes "true") ≡ rollback
        → be.rollback_ota_ws rollback w.backend ≡ reboot b
        → ota_ws_handler be jsmn_parse chunk_config req w
          ≡ reboot (record w { backend = b; live_bufs = w.live_bufs + 1 })
    unfolding ota_ws_handler receive_frame received process_frame text_frame parsed recv_ret
        calloc_buf
    handler-reboot rollback b key run =
        let done_so =
          command-reboot value rollback (record w { live_bufs = w.live_bufs + 1 }) b key run in
        simp (t.not_get, t.has_len, t.is_text, t.allocated, t.has_payload, h, json, done_so)
