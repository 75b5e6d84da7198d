-- ===== src/Http/Handler.antt =====
-- `ota_ws_handler`: one call for each frame of the web socket.
use ota_ws_update.Base.{
  ℕ, suc, ◌-◌, ◌%◌, Bool, [], ◌∷◌, ◌++◌, Option, none, some, ltb, ◌==◌, if◌then◌else◌, Bytes, List,
  codes, length, take, replicate,
}
use ota_ws_update.Word.{add32}
use ota_ws_update.Text.{strncmp_is_zero, atoi}
use ota_ws_update.Esp.{
  EspErr, esp_ok, esp_err_no_mem, is_err, reboot, M, pure, ◌>>=◌, ◌>>◌, modify, get,
}
use ota_ws_update.Backend.{Backend}
use ota_ws_update.Jsmn.{JsmnParse}
use ota_ws_update.Http.Keys
use ota_ws_update.Http.Message.{
  check_rollback_message, set_chunk_size_message, first_chunk_message, next_chunk_message,
  end_message,
}
use ota_ws_update.Http.Json.{Parm, json_to_str_parm}
use ota_ws_update.Http.Session.{Session, lift, send_json_string, calloc_buf, free_buf, ota_error}

pub data FrameType : Type 0 where
  text binary : FrameType
  other_type : ℕ → FrameType

-- What the server and the allocator answer during one call: the request's method; the first
-- `httpd_ws_recv_frame`, with the frame's type and length; `calloc`; the second
-- `httpd_ws_recv_frame`, with the bytes that it has written to the buffer.
pub record Request : Type 0 where
  pub is_get : Bool
  pub len_ret : EspErr
  pub frame_type : FrameType
  pub len : ℕ
  pub calloc_ok : Bool
  pub payload_ret : EspErr
  pub payload : Bytes

-- The `len + 1` bytes of a buffer from `calloc`, after the frame was written to its first `len`.
unfoldable pub filled : ℕ → Bytes → Bytes
filled len payload = take len (payload ++ replicate len 0) ++ (0 ∷ [])

-- `CONFIG_OTA_CHUNK_SIZE & ~0xf`
unfoldable pub ota_chunk_size : ℕ → ℕ
ota_chunk_size config = config - config % 16

-- `strncmp(json_key, LITERAL, sizeof(LITERAL)) == 0`
unfoldable pub is_key : Bytes → Bytes → Bool
is_key key literal = strncmp_is_zero key literal (suc (length literal))

module _ (be : Backend) (jsmn_parse : JsmnParse) (chunk_config : ℕ) where
  abbrev pub Handler : Type 0 → Type 0
  Handler = M (Session be.State)

  -- `ota_error(…); goto _recv_ret;`, with the `ret` that is returned there
  unfoldable pub fail_with : Bytes → EspErr → Handler EspErr
  unfolding ota_error
  fail_with msg ret = do ota_error be Keys.ota_error msg; pure ret

  started_reply : Handler (Option EspErr)
  unfolding send_json_string
  started_reply = do
    modify λ w. record w { ota_started = 1; ota_start_chunk = 0 }
    send_json_string (set_chunk_size_message (ota_chunk_size chunk_config))
    w ← get
    send_json_string (first_chunk_message w.ota_start_chunk)
    pure none

  -- Behind `start_ota_ws`; `some ret` leaves by `goto`, `none` goes on behind the branch.
  unfoldable pub begun : EspErr → Handler (Option EspErr)
  unfolding fail_with started_reply
  begun err =
      if is_err err
      then (do ret ← fail_with (codes "Error start ota") err; pure (some ret))
      else started_reply

  -- The branch of "otaSize".
  unfoldable pub size_command : Bytes → Handler (Option EspErr)
  unfolding fail_with
  size_command value = do
    modify λ w. record w { ota_size = atoi value }
    w ← get
    if w.ota_size == 0
        then (do ret ← fail_with (codes "Error ota size = 0") esp_ok; pure (some ret))
        else lift be.start_ota_ws >>= begun

  -- The comparisons behind "otaSize"; `esp_restart` does not return.
  unfoldable pub other_command : Bytes → Bytes → Handler EspErr
  unfolding fail_with ota_error is_key
  other_command key value =
      if is_key key Keys.ota_cancel
      then (do ota_error be Keys.ota_cancel (codes "Cancel command"); pure esp_ok)
      else if is_key key Keys.ota_error
      then fail_with (codes "Error command") esp_ok
      else if is_key key Keys.ota_process_rollback
      then lift (be.rollback_ota_ws (is_key value (codes "true")))
      else if is_key key Keys.ota_restart_esp
      then (λ w. reboot w)
      else pure esp_ok

  unfoldable pub behind_size : Bytes → Bytes → Option EspErr → Handler EspErr
  behind_size key value (some ret) = pure ret
  behind_size key value none = other_command key value

  unfoldable pub command : Bytes → Bytes → Handler EspErr
  unfolding is_key
  command key value =
      (if is_key key Keys.ota_size_start then size_command value else pure none)
      >>= behind_size key value

  -- A text frame: one JSON command.
  unfoldable pub parsed : Parm → Handler EspErr
  parsed p =
      if is_err p.ret then fail_with (codes "Error json str") esp_ok else command p.name p.value

  unfoldable pub text_frame : Option Bytes → Handler EspErr
  text_frame buf = json_to_str_parm jsmn_parse buf >>= parsed

  -- A chunk in front of the end of the update.
  unfoldable pub written : ℕ → EspErr → Handler EspErr
  unfolding send_json_string
  written len ret = if is_err ret then fail_with (codes "Error write ota") ret else do
    modify λ w. record w { ota_start_chunk = add32 w.ota_start_chunk len }
    w ← get
    send_json_string (next_chunk_message w.ota_start_chunk)
    pure ret

  unfoldable pub next_chunk : ℕ → Option Bytes → Handler EspErr
  next_chunk len buf = lift (be.write_ota_ws len buf) >>= written len

  -- The chunk that reaches the size announced.
  unfoldable pub ended : EspErr → Handler EspErr
  unfolding send_json_string
  ended ret = if is_err ret then fail_with (codes "Error end ota") ret else do
    modify λ w. record w { ota_size = 0; ota_start_chunk = 0; ota_started = 0 }
    send_json_string end_message
    pure ret

  unfoldable pub last_written : EspErr → Handler EspErr
  last_written ret =
      if is_err ret then fail_with (codes "Error write ota") ret else lift be.end_ota_ws >>= ended

  unfoldable pub last_chunk : ℕ → Option Bytes → Handler EspErr
  last_chunk len buf = lift (be.write_ota_ws len buf) >>= last_written

  -- A binary frame while an update runs; the sum and the comparison are those of `size_t`.
  unfoldable pub binary_frame : ℕ → Option Bytes → Handler EspErr
  unfolding next_chunk last_chunk
  binary_frame len buf = do
    w ← get
    if ltb (add32 w.ota_start_chunk len) w.ota_size then next_chunk len buf else last_chunk len buf

  -- The frame is processed by its type; any other frame is passed over.
  unfoldable pub process_frame : FrameType → ℕ → Option Bytes → Handler EspErr
  process_frame text len buf = text_frame buf
  process_frame binary len buf = do
    w ← get
    if w.ota_started == 0 then pure esp_ok else binary_frame len buf
  process_frame (other_type _) len buf = pure esp_ok

  -- Behind the label `_recv_ret`.
  unfoldable pub recv_ret : Option Bytes → EspErr → Handler EspErr
  unfolding free_buf
  recv_ret buf ret = do free_buf buf; pure ret

  -- A frame with a payload, once the buffer is allocated.
  unfoldable pub received : Request → Handler EspErr
  received req =
      if is_err req.payload_ret
      then fail_with (codes "httpd_ws_recv_frame failed") req.payload_ret
      else process_frame req.frame_type req.len (some (filled req.len req.payload))

  unfoldable pub receive_frame : Request → Handler EspErr
  unfolding calloc_buf
  receive_frame req =
      if is_err req.len_ret
      then fail_with (codes "httpd_ws_recv_frame failed to get frame len") req.len_ret
      else if req.len == 0
      then process_frame req.frame_type 0 none >>= recv_ret none
      else if req.calloc_ok
      then (do calloc_buf; received req >>= recv_ret (some (filled req.len req.payload)))
      else fail_with (codes "Failed to calloc memory for buf") esp_err_no_mem

  -- A new connection is told if the running image waits to be confirmed.
  unfoldable pub handshake : Handler EspErr
  unfolding send_json_string
  handshake = do
    pending ← lift be.check_ota_ws_rollback_enable
    if pending then send_json_string check_rollback_message else pure tt
    pure esp_ok

  unfoldable pub ota_ws_handler : Request → Handler EspErr
  ota_ws_handler req = if req.is_get then handshake else receive_frame req

  -- The frames of a connection, one after another, as long as the handler returns.
  unfoldable pub serve : List Request → Handler (List EspErr)
  serve [] = pure []
  serve (req ∷ reqs) = do ret ← ota_ws_handler req; rets ← serve reqs; pure (ret ∷ rets)
