-- ===== src/Http/Upload/Refused.antt =====
-- A start and an end of an update that the flash writer refuses.
use ota_ws_update.Base.{
  ℕ, ◌+◌, ◌-◌, ◌<◌, ◌≡◌, refl, false, true, [], ◌∷◌, ◌++◌, Option, some, arith, ◌==◌, Bytes, codes,
  length,
}
use ota_ws_update.Word.{add32_exact, u32_mod}
use ota_ws_update.Text.{atoi, strncmp_is_zero}
use ota_ws_update.Esp.{EspErr, esp_ok, is_err, done}
use ota_ws_update.Backend.{Backend}
use ota_ws_update.Jsmn.{JsmnParse}
use ota_ws_update.Http.Keys
use ota_ws_update.Http.Session.{Session, calloc_buf, free_buf}
use ota_ws_update.Http.Json.{json_to_str_parm}
use ota_ws_update.Http.TextFrame.{IsTextFrame}
use ota_ws_update.Http.Upload.{chunk_request}
use ota_ws_update.Http.Upload.Steps.{handler-chunk, failed_state}
use ota_ws_update.Http.Handler.{
  Request, filled, is_key, receive_frame, received, recv_ret, process_frame, text_frame, parsed,
  command, size_command, begun, behind_size, other_command, ota_ws_handler, fail_with, binary_frame,
  last_chunk, last_written, ended,
}

restored : (n : ℕ) → n + 1 - 1 ≡ n
restored n = omega arith

module _ (be : Backend) (jsmn_parse : JsmnParse) (chunk_config : ℕ) where
  command-refused :
      (value : Bytes) (w : Session be.State) (b b' : be.State) (ret aborted : EspErr)
      → (atoi value == 0) ≡ false
      → is_err ret ≡ true
      → be.start_ota_ws w.backend ≡ done ret b
      → be.abort_ota_ws b ≡ done aborted b'
      → command be jsmn_parse chunk_config Keys.ota_size_start value w
        ≡ done ret (failed_state be jsmn_parse chunk_config (codes "Error start ota") b' w)
  unfolding command size_command begun behind_size other_command is_key strncmp_is_zero fail_with
  command-refused value w b b' ret aborted size bad starts aborts =
      rw (size, starts) (rw bad (rw aborts refl))

  -- An "otaSize" command whose start the flash writer refuses: the update does not begin.
  pub handler-refused_start :
      (req : Request) (w : Session be.State) (b b' : be.State) (value : Bytes)
      (ret aborted : EspErr)
      → IsTextFrame req
      → (req.len == 0) ≡ false
      → ((s : Session be.State)
          → json_to_str_parm jsmn_parse (some (filled req.len req.payload)) s
            ≡ done (record { ret = esp_ok; name = Keys.ota_size_start; value = value }) s)
      → (atoi value == 0) ≡ false
      → is_err ret ≡ true
      → be.start_ota_ws w.backend ≡ done ret b
      → be.abort_ota_ws b ≡ done aborted b'
      → ota_ws_handler be jsmn_parse chunk_config req w
        ≡ done ret (failed_state be jsmn_parse chunk_config (codes "Error start ota") b' w)
  unfolding ota_ws_handler receive_frame received process_frame text_frame parsed recv_ret
      calloc_buf free_buf
  handler-refused_start req w b b' value ret aborted t h json size bad starts aborts =
      let run =
        command-refused value (record w { live_bufs = w.live_bufs + 1 }) b b' ret aborted size bad
          starts aborts in
      simp (t.not_get, t.has_len, t.is_text, t.allocated, t.has_payload, h, json, run, restored)

  binary-refused_end :
      (len : ℕ) (buf : Option Bytes) (w : Session be.State) (b b' b2 : be.State)
      (ret aborted : EspErr)
      → w.ota_start_chunk + len ≡ w.ota_size
      → w.ota_size < u32_mod
      → be.write_ota_ws len buf w.backend ≡ done esp_ok b
      → is_err ret ≡ true
      → be.end_ota_ws b ≡ done ret b'
      → be.abort_ota_ws b' ≡ done aborted b2
      → binary_frame be jsmn_parse chunk_config len buf w
        ≡ done ret (failed_state be jsmn_parse chunk_config (codes "Error end ota") b2 w)
  unfolding binary_frame last_chunk last_written ended fail_with
  binary-refused_end len buf w b b' b2 ret aborted last word run bad ends aborts =
      ground (arith, add32_exact w.ota_start_chunk len)

  -- The chunk that reaches the announced end is written, and the flash writer refuses the end.
  pub handler-refused_end :
      (c : Bytes) (w : Session be.State) (b b' b2 : be.State) (ret aborted : EspErr)
      → (length c == 0) ≡ false
      → w.ota_started ≡ 1
      → w.ota_start_chunk + length c ≡ w.ota_size
      → w.ota_size < u32_mod
      → be.write_ota_ws (length c) (some (c ++ (0 ∷ []))) w.backend ≡ done esp_ok b
      → is_err ret ≡ true
      → be.end_ota_ws b ≡ done ret b'
      → be.abort_ota_ws b' ≡ done aborted b2
      → ota_ws_handler be jsmn_parse chunk_config (chunk_request c) w
        ≡ done ret (failed_state be jsmn_parse chunk_config (codes "Error end ota") b2 w)
  handler-refused_end c w b b' b2 ret aborted h s last word run bad ends aborts =
      handler-chunk be jsmn_parse chunk_config c w
        (failed_state be jsmn_parse chunk_config (codes "Error end ota") b2 w) ret h (rw s refl)
        (binary-refused_end (length c) (some (c ++ (0 ∷ [])))
          (record w { live_bufs = w.live_bufs + 1 }) b b' b2 ret aborted last word run bad ends
          aborts)
