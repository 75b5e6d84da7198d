-- ===== src/Http/Upload/Steps.antt =====
-- One frame of an update, with the answer of the flash writer given.
use ota_ws_update.Base.{
  ℕ, ◌+◌, ◌-◌, ◌<◌, ◌≡◌, refl, true, false, [], ◌∷◌, ◌++◌, Option, some, Bytes, arith, ◌==◌, codes,
  length, take-append_length,
}
use ota_ws_update.Word.{add32_exact, u32_mod}
use ota_ws_update.Esp.{EspErr, esp_ok, is_err, done}
use ota_ws_update.Backend.{Backend}
use ota_ws_update.Jsmn.{JsmnParse}
use ota_ws_update.Http.Keys
use ota_ws_update.Http.Message.{error_message, next_chunk_message, end_message}
use ota_ws_update.Http.Session.{Session, calloc_buf, send_json_string, free_buf}
use ota_ws_update.Http.Handler.{
  filled, receive_frame, received, recv_ret, process_frame, binary_frame, next_chunk, written,
  last_chunk, last_written, ended, fail_with, ota_ws_handler,
}
use ota_ws_update.Http.Upload.{chunk_request}

-- The buffer of a frame that arrives whole.
pub filled_whole : (c : Bytes) → filled (length c) c ≡ c ++ (0 ∷ [])
unfolding filled
filled_whole c = rw take-append_length

restored : (n : ℕ) → n + 1 - 1 ≡ n
restored n = omega arith

idle_test : (n : ℕ) → n ≡ 0 → (n == 0) ≡ true
idle_test n h = rw h refl

module _ (be : Backend) (jsmn_parse : JsmnParse) (chunk_config : ℕ) where
  -- The frame's buffer is allocated and freed around the processing of its chunk.
  pub handler-chunk :
      (c : Bytes) (w w' : Session be.State) (ret : EspErr)
      → (length c == 0) ≡ false
      → (w.ota_started == 0) ≡ false
      → binary_frame be jsmn_parse chunk_config
          (length c)
          (some (c ++ (0 ∷ [])))
          (record w { live_bufs = w.live_bufs + 1 })
        ≡ done ret (record w' { live_bufs = w.live_bufs + 1 })
      → ota_ws_handler be jsmn_parse chunk_config (chunk_request c) w
        ≡ done ret (record w' { live_bufs = w.live_bufs })
  unfolding ota_ws_handler receive_frame received process_frame recv_ret calloc_buf
  handler-chunk c w w' ret h s run = simp (h, filled_whole, s, run, restored)

  binary-next_chunk :
      (len : ℕ) (buf : Option Bytes) (w : Session be.State) (b : be.State)
      → w.ota_start_chunk + len < w.ota_size
      → w.ota_size < u32_mod
      → be.write_ota_ws len buf w.backend ≡ done esp_ok b
      → binary_frame be jsmn_parse chunk_config len buf w
        ≡ done esp_ok (record w {
          ota_start_chunk = w.ota_start_chunk + len;
          backend = b;
          sent = next_chunk_message (w.ota_start_chunk + len) ∷ w.sent;
        })
  unfolding binary_frame next_chunk written send_json_string
  binary-next_chunk len buf w b more word run = ground (arith, add32_exact w.ota_start_chunk len)

  binary-last_chunk :
      (len : ℕ) (buf : Option Bytes) (w : Session be.State) (b b' : be.State)
      → w.ota_start_chunk + len ≡ w.ota_size
      → w.ota_size < u32_mod
      → be.write_ota_ws len buf w.backend ≡ done esp_ok b
      → be.end_ota_ws b ≡ done esp_ok b'
      → binary_frame be jsmn_parse chunk_config len buf w
        ≡ done esp_ok (record w {
          ota_size = 0;
          ota_start_chunk = 0;
          ota_started = 0;
          backend = b';
          sent = end_message ∷ w.sent;
        })
  unfolding binary_frame last_chunk last_written ended send_json_string
  binary-last_chunk len buf w b b' last word run ends =
      ground (arith, add32_exact w.ota_start_chunk len)

  binary-failed :
      (len : ℕ) (buf : Option Bytes) (w : Session be.State) (b b' : be.State) (ret aborted : EspErr)
      → is_err ret ≡ true
      → be.write_ota_ws len buf w.backend ≡ done ret b
      → be.abort_ota_ws b ≡ done aborted b'
      → binary_frame be jsmn_parse chunk_config len buf w
        ≡ done ret (record w {
          ota_size = 0;
          ota_start_chunk = 0;
          ota_started = 0;
          backend = b';
          sent = error_message Keys.ota_error (codes "Error write ota") ∷ w.sent;
        })
  unfolding binary_frame next_chunk written last_chunk last_written fail_with
  binary-failed len buf w b b' ret aborted failed run aborts = ground arith

  -- A chunk in front of the announced end is written, and the client is asked for the next one.
  pub handler-next_chunk :
      (c : Bytes) (w : Session be.State) (b : be.State)
      → (length c == 0) ≡ false
      → w.ota_started ≡ 1
      → w.ota_start_chunk + length c < w.ota_size
      → w.ota_size < u32_mod
      → be.write_ota_ws (length c) (some (c ++ (0 ∷ []))) w.backend ≡ done esp_ok b
      → ota_ws_handler be jsmn_parse chunk_config (chunk_request c) w
        ≡ done esp_ok (record w {
          ota_start_chunk = w.ota_start_chunk + length c;
          backend = b;
          sent = next_chunk_message (w.ota_start_chunk + length c) ∷ w.sent;
        })
  handler-next_chunk c w b h s more word run =
      handler-chunk c w
        (record w {
          ota_start_chunk = w.ota_start_chunk + length c;
          backend = b;
          sent = next_chunk_message (w.ota_start_chunk + length c) ∷ w.sent;
        })
        esp_ok h (rw s refl)
        (binary-next_chunk (length c) (some (c ++ (0 ∷ [])))
          (record w { live_bufs = w.live_bufs + 1 }) b more word run)

  -- The chunk that reaches the announced end is written and the update is ended.
  pub handler-last_chunk :
      (c : Bytes) (w : Session be.State) (b b' : be.State)
      → (length c == 0) ≡ false
      → w.ota_started ≡ 1
      → w.ota_start_chunk + length c ≡ w.ota_size
      → w.ota_size < u32_mod
      → be.write_ota_ws (length c) (some (c ++ (0 ∷ []))) w.backend ≡ done esp_ok b
      → be.end_ota_ws b ≡ done esp_ok b'
      → ota_ws_handler be jsmn_parse chunk_config (chunk_request c) w
        ≡ done esp_ok (record w {
          ota_size = 0;
          ota_start_chunk = 0;
          ota_started = 0;
          backend = b';
          sent = end_message ∷ w.sent;
        })
  handler-last_chunk c w b b' h s last word run ends =
      handler-chunk c w
        (record w {
          ota_size = 0;
          ota_start_chunk = 0;
          ota_started = 0;
          backend = b';
          sent = end_message ∷ w.sent;
        })
        esp_ok h (rw s refl)
        (binary-last_chunk (length c) (some (c ++ (0 ∷ [])))
          (record w { live_bufs = w.live_bufs + 1 }) b b' last word run ends)

  -- The state after `ota_error`, at the state that the flash writer's abort leaves.
  abbrev pub failed_state : Bytes → be.State → Session be.State → Session be.State
  failed_state msg b w = record w {
    ota_size = 0;
    ota_start_chunk = 0;
    ota_started = 0;
    backend = b;
    sent = error_message Keys.ota_error msg ∷ w.sent;
  }

  -- A chunk that the flash writer refuses ends the update.
  pub handler-failed_chunk :
      (c : Bytes) (w : Session be.State) (b b' : be.State) (ret aborted : EspErr)
      → (length c == 0) ≡ false
      → w.ota_started ≡ 1
      → is_err ret ≡ true
      → be.write_ota_ws (length c) (some (c ++ (0 ∷ []))) w.backend ≡ done ret b
      → be.abort_ota_ws b ≡ done aborted b'
      → ota_ws_handler be jsmn_parse chunk_config (chunk_request c) w
        ≡ done ret (failed_state (codes "Error write ota") b' w)
  handler-failed_chunk c w b b' ret aborted h s failed run aborts =
      handler-chunk c w (failed_state (codes "Error write ota") b' w) ret h (rw s refl) (
        binary-failed (length c) (some (c ++ (0 ∷ []))) (record w { live_bufs = w.live_bufs + 1 }) b
          b' ret aborted failed run aborts)

  -- A chunk that comes while no update runs is passed over.
  pub handler-idle_chunk :
      (c : Bytes) (w : Session be.State)
      → (length c == 0) ≡ false
      → w.ota_started ≡ 0
      → ota_ws_handler be jsmn_parse chunk_config (chunk_request c) w ≡ done esp_ok w
  unfolding ota_ws_handler receive_frame received process_frame recv_ret calloc_buf free_buf
  handler-idle_chunk c w h s = simp (h, idle_test w.ota_started s, restored)
