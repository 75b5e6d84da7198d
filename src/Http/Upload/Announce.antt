-- ===== src/Http/Upload/Announce.antt =====
-- The "otaSize" command that begins an update.
use ota_ws_update.Base.{ℕ, ◌+◌, ◌-◌, ◌≡◌, refl, false, ◌∷◌, some, arith, ◌==◌, Bytes}
use ota_ws_update.Text.{atoi, strncmp_is_zero}
use ota_ws_update.Esp.{esp_ok, done}
use ota_ws_update.Backend.{Backend}
use ota_ws_update.Jsmn.{JsmnParse}
use ota_ws_update.Http.Keys
use ota_ws_update.Http.Message.{set_chunk_size_message, first_chunk_message}
use ota_ws_update.Http.Session.{Session, calloc_buf, free_buf}
use ota_ws_update.Http.Json.{json_to_str_parm}
use ota_ws_update.Http.TextFrame.{IsTextFrame}
use ota_ws_update.Http.Handler.{
  Request, filled, ota_chunk_size, is_key, receive_frame, received, recv_ret, process_frame,
  text_frame, parsed, command, size_command, begun, behind_size, other_command, ota_ws_handler,
}

-- The session once an update of `size` bytes has begun.
abbrev pub announced : {B : Type 0} → ℕ → ℕ → B → Session B → Session B
announced chunk_config size b w = record w {
  ota_size = size;
  ota_start_chunk = 0;
  ota_started = 1;
  backend = b;
  sent = first_chunk_message 0 ∷ set_chunk_size_message (ota_chunk_size chunk_config) ∷ w.sent;
}

restored : (n : ℕ) → n + 1 - 1 ≡ n
restored n = omega arith

module _ (be : Backend) (jsmn_parse : JsmnParse) (chunk_config : ℕ) where
  command-announced :
      (value : Bytes) (w : Session be.State) (b : be.State)
      → (atoi value == 0) ≡ false
      → be.start_ota_ws w.backend ≡ done esp_ok b
      → command be jsmn_parse chunk_config Keys.ota_size_start value w
        ≡ done esp_ok (announced chunk_config (atoi value) b w)
  unfolding command size_command begun behind_size other_command is_key strncmp_is_zero
  command-announced value w b size starts = rw (size, starts) refl

  pub handler-announced :
      (req : Request) (w : Session be.State) (b : be.State) (value : Bytes)
      → IsTextFrame req
      → (req.len == 0) ≡ false
      → ((s : Session be.State)
          → json_to_str_parm jsmn_parse (some (filled req.len req.payload)) s
            ≡ done (record { ret = esp_ok; name = Keys.ota_size_start; value = value }) s)
      → (atoi value == 0) ≡ false
      → be.start_ota_ws w.backend ≡ done esp_ok b
      → ota_ws_handler be jsmn_parse chunk_config req w
        ≡ done esp_ok (announced chunk_config (atoi value) b w)
  unfolding ota_ws_handler receive_frame received process_frame text_frame parsed recv_ret
      calloc_buf free_buf
  handler-announced req w b value t h json size starts =
      let run = command-announced value (record w { live_bufs = w.live_bufs + 1 }) b size starts in
      simp (t.not_get, t.has_len, t.is_text, t.allocated, t.has_payload, h, json, run, restored)
