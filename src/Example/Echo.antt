-- ===== src/Example/Echo.antt =====
-- `echo_handler` of example_ota_ws/main/example_echo_ws_server.c.
use ota_ws_update.Base.{
  ℕ, ◌+◌, ◌-◌, ◌==◌, Bool, true, false, List, [], ◌∷◌, ◌++◌, Bytes, take, if◌then◌else◌, replicate,
}
use ota_ws_update.Esp.{EspErr, esp_ok, esp_err_no_mem, is_err, M, pure, ◌>>=◌, ◌>>◌, modify}
use ota_ws_update.Http.Handler.{Request, FrameType}

-- What the server and the allocator answer, as for the update's handler, and what
-- `httpd_ws_send_frame` returns.
pub record EchoRequest : Type 0 where
  pub request : Request
  pub send_ret : EspErr

-- The frames handed to `httpd_ws_send_frame`, the last one first, and the number of receive buffers
-- that are allocated and not freed.
pub record EchoState : Type 0 where
  pub sent : List (FrameType × Bytes)
  pub live_bufs : ℕ

abbrev pub Echo : Type 0 → Type 0
Echo = M EchoState

-- The bytes of the frame in its buffer, which was zero before.
abbrev pub payload_of : Request → Bytes
payload_of req = take req.len (req.payload ++ replicate req.len 0)

send_frame : FrameType → Bytes → Echo (Unit {0})
send_frame type bytes = modify λ s. record s { sent = (type, bytes) ∷ s.sent }

free_buf : Echo (Unit {0})
free_buf = modify λ s. record s { live_bufs = s.live_bufs - 1 }

-- The frame once its payload has been asked for.
echoed : EchoRequest → Echo EspErr
unfolding send_frame free_buf
echoed req =
    if is_err req.request.payload_ret then (do free_buf; pure req.request.payload_ret) else (do
      send_frame req.request.frame_type (payload_of req.request)
      free_buf
      pure req.send_ret)

unfoldable pub echo_handler : EchoRequest → Echo EspErr
unfolding echoed send_frame
echo_handler req =
    if req.request.is_get
    then pure esp_ok
    else if is_err req.request.len_ret
    then pure req.request.len_ret
    else if req.request.len == 0
    then (do send_frame req.request.frame_type []; pure req.send_ret)
    else if req.request.calloc_ok
    then (do modify λ s. record s { live_bufs = s.live_bufs + 1 }; echoed req)
    else pure esp_err_no_mem

unfoldable pub echo_all : List EchoRequest → Echo (List EspErr)
echo_all [] = pure []
echo_all (req ∷ reqs) = do ret ← echo_handler req; rets ← echo_all reqs; pure (ret ∷ rets)

-- A frame that has arrived, with its payload if it has one.
abbrev pub arrived : Request → Bool
arrived req =
    if req.is_get
    then false
    else if is_err req.len_ret
    then false
    else if req.len == 0
    then true
    else if req.calloc_ok
    then (if is_err req.payload_ret then false else true)
    else false

-- The frames that have arrived, the last one first, on top of those before.
abbrev pub answers : List EchoRequest → List (FrameType × Bytes) → List (FrameType × Bytes)
answers [] sent = sent
answers (req ∷ reqs) sent =
    answers reqs (
      if arrived req.request then (req.request.frame_type, payload_of req.request) ∷ sent else sent)

-- What the handler returns: the first error, or what sending returned.
abbrev pub result : EchoRequest → EspErr
result req =
    if req.request.is_get
    then esp_ok
    else if is_err req.request.len_ret
    then req.request.len_ret
    else if req.request.len == 0
    then req.send_ret
    else if req.request.calloc_ok
    then (if is_err req.request.payload_ret then req.request.payload_ret else req.send_ret)
    else esp_err_no_mem

abbrev pub results : List EchoRequest → List EspErr
results [] = []
results (req ∷ reqs) = result req ∷ results reqs
