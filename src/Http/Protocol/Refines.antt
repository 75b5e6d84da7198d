-- ===== src/Http/Protocol/Refines.antt =====
-- `ota_ws_handler` in source/ota_ws_update_http.c and the protocol: the handler, seen through its
-- static variables, makes the steps of the protocol.
use ota_ws_update.Base.{
  ℕ, ◌+◌, ◌≡◌, refl, ◌∙◌, inl, inr, true, false, List, [], ◌∷◌, Option, none, some, Bytes, ltb,
  ◌==◌, if◌then◌else◌, Bool-cases, codes,
}
use ota_ws_update.Word.{add32}
use ota_ws_update.Esp.{
  EspErr, esp_err_no_mem, is_err, Outcome, done, reboot, crash, bind, pure, ◌>>=◌,
}
use ota_ws_update.Backend.{Backend}
use ota_ws_update.Jsmn.{JsmnParse}
use ota_ws_update.Http.Keys
use ota_ws_update.Http.Session.{Session, send_json_string, calloc_buf, free_buf}
use ota_ws_update.Http.Handler.{
  FrameType, text, binary, other_type, Request, filled, fail_with, written, next_chunk, ended,
  last_written, last_chunk, binary_frame, process_frame, recv_ret, received, receive_frame,
  ota_ws_handler, serve,
}
use ota_ws_update.Http.Protocol.{
  failed, chunk, Event, call, say, become, finish, advance, take_chunk, step, run, frame_event,
  event, events,
}
use ota_ws_update.Http.Protocol.View.{transfer_of, view, seen, seen-call, seen-bind}
use ota_ws_update.Http.Protocol.Commands.{ota_error-seen, handshake-seen, text-seen}

module _ (be : Backend) (jsmn_parse : JsmnParse) (chunk_config : ℕ) where
  -- A chunk.
  ended-seen :
      (ret : EspErr) (w : Session be.State)
      → seen (ended be jsmn_parse chunk_config ret w) ≡ finish be chunk_config ret (view w)
  unfolding ended finish fail_with send_json_string say become seen transfer_of
  ended-seen ret w = elim (Bool-cases (is_err ret)) [
    | inl bad ↦ simp (
      bad,
      ota_error-seen be jsmn_parse chunk_config Keys.ota_error (codes "Error end ota") ret w,
    )
    | inr good ↦ simp good
  ]

  written-seen :
      (len : ℕ) (ret : EspErr) (w : Session be.State)
      → (w.ota_started == 0) ≡ false
      → ltb (add32 w.ota_start_chunk len) w.ota_size ≡ true
      → seen (written be jsmn_parse chunk_config len ret w)
        ≡ advance be chunk_config w.ota_size (add32 w.ota_start_chunk len) ret (view w)
  unfolding written advance fail_with send_json_string say become seen transfer_of
  written-seen len ret w running more = elim (Bool-cases (is_err ret)) [
    | inl bad ↦ simp (
      bad,
      ota_error-seen be jsmn_parse chunk_config Keys.ota_error (codes "Error write ota") ret w,
    )
    | inr good ↦ simp (good, more, running)
  ]

  last_written-seen :
      (len : ℕ) (ret : EspErr) (w : Session be.State)
      → ltb (add32 w.ota_start_chunk len) w.ota_size ≡ false
      → seen (last_written be jsmn_parse chunk_config ret w)
        ≡ advance be chunk_config w.ota_size (add32 w.ota_start_chunk len) ret (view w)
  unfolding last_written advance fail_with call transfer_of
  last_written-seen len ret w last = elim (Bool-cases (is_err ret)) [
    | inl bad ↦ simp (
      bad,
      ota_error-seen be jsmn_parse chunk_config Keys.ota_error (codes "Error write ota") ret w,
    )
    | inr good ↦ simp (
      good,
      last,
      seen-call w (view w) (be.end_ota_ws w.backend) (ended be jsmn_parse chunk_config)
          (finish be chunk_config) refl (λ r b. ended-seen r (record w { backend = b })),
    )
  ]

  chunk-seen :
      (len : ℕ) (buf : Option Bytes) (w : Session be.State)
      → (w.ota_started == 0) ≡ false
      → seen (binary_frame be jsmn_parse chunk_config len buf w)
        ≡ step be chunk_config (chunk len buf) (view w)
  unfolding binary_frame next_chunk last_chunk step take_chunk call transfer_of
  chunk-seen len buf w running = elim (Bool-cases (ltb (add32 w.ota_start_chunk len) w.ota_size)) [
    | inl more ↦ simp (
      more,
      running,
      seen-call w (view w) (be.write_ota_ws len buf w.backend)
          (written be jsmn_parse chunk_config len)
          (advance be chunk_config w.ota_size (add32 w.ota_start_chunk len)) refl
          (λ r b. written-seen len r (record w { backend = b }) running more),
    )
    | inr last ↦ simp (
      last,
      running,
      seen-call w (view w) (be.write_ota_ws len buf w.backend)
          (last_written be jsmn_parse chunk_config)
          (advance be chunk_config w.ota_size (add32 w.ota_start_chunk len)) refl
          (λ r b. last_written-seen len r (record w { backend = b }) last),
    )
  ]

  process_frame-seen :
      (kind : FrameType) (len : ℕ) (buf : Option Bytes) (w : Session be.State)
      → seen (process_frame be jsmn_parse chunk_config kind len buf w)
        ≡ step be chunk_config (frame_event jsmn_parse kind len buf) (view w)
  unfolding process_frame frame_event step take_chunk seen transfer_of
  process_frame-seen text len buf w = text-seen be jsmn_parse chunk_config buf w
  process_frame-seen binary len buf w = elim (Bool-cases (w.ota_started == 0)) [
    | inl idle ↦ simp idle
    | inr running ↦ simp (running, chunk-seen len buf w running)
  ]
  process_frame-seen (other_type n) len buf w = refl

  -- The receive buffer is not seen.
  recv_ret-seen :
      (buf : Option Bytes) (o : Outcome (Session be.State) EspErr)
      → seen (bind o (recv_ret be jsmn_parse chunk_config buf)) ≡ seen o
  unfolding recv_ret free_buf seen transfer_of
  recv_ret-seen none (done ret w) = refl
  recv_ret-seen (some buf) (done ret w) = refl
  recv_ret-seen buf (reboot w) = refl
  recv_ret-seen buf (crash f) = refl

  payload_event : Request → Event
  payload_event req =
      if is_err req.payload_ret
      then failed (codes "httpd_ws_recv_frame failed") req.payload_ret
      else frame_event jsmn_parse req.frame_type req.len (some (filled req.len req.payload))

  received-seen :
      (req : Request) (w : Session be.State)
      → seen (received be jsmn_parse chunk_config req w)
        ≡ step be chunk_config (payload_event req) (view w)
  unfolding received payload_event fail_with step
  received-seen req w = elim (Bool-cases (is_err req.payload_ret)) [
    | inl bad ↦ rw bad (
        ota_error-seen be jsmn_parse chunk_config Keys.ota_error
          (codes "httpd_ws_recv_frame failed") req.payload_ret w)
    | inr good ↦
        rw good (process_frame-seen req.frame_type req.len (some (filled req.len req.payload)) w)
  ]

  fail_with-seen :
      (msg : Bytes) (ret : EspErr) (w : Session be.State)
      → seen (fail_with be jsmn_parse chunk_config msg ret w)
        ≡ step be chunk_config (failed msg ret) (view w)
  unfolding fail_with step
  fail_with-seen msg ret w = ota_error-seen be jsmn_parse chunk_config Keys.ota_error msg ret w

  receive_frame-seen :
      (req : Request) (w : Session be.State)
      → req.is_get ≡ false
      → seen (receive_frame be jsmn_parse chunk_config req w)
        ≡ step be chunk_config (event jsmn_parse req) (view w)
  unfolding receive_frame event calloc_buf payload_event transfer_of received
  receive_frame-seen req w frame = elim (Bool-cases (is_err req.len_ret)) [
    | inl failed_so ↦
        rw (frame, failed_so)
          (fail_with-seen (codes "httpd_ws_recv_frame failed to get frame len") req.len_ret w)
    | inr good ↦ elim (Bool-cases (req.len == 0)) [
      | inl empty ↦
          rw (frame, good, empty)
            (recv_ret-seen none (process_frame be jsmn_parse chunk_config req.frame_type 0 none w)
              ∙ process_frame-seen req.frame_type 0 none w)
      | inr longer ↦ elim (Bool-cases req.calloc_ok) [
        | inl given ↦
            rw (frame, good, longer, given)
              (recv_ret-seen (some (filled req.len req.payload)) (
                  received be jsmn_parse chunk_config req
                    (record w { live_bufs = w.live_bufs + 1 }))
                ∙ received-seen req (record w { live_bufs = w.live_bufs + 1 }))
        | inr refused ↦
            rw (frame, good, longer, refused)
              (fail_with-seen (codes "Failed to calloc memory for buf") esp_err_no_mem w)
      ]
    ]
  ]

  pub handler-seen :
      (req : Request) (w : Session be.State)
      → seen (ota_ws_handler be jsmn_parse chunk_config req w)
        ≡ step be chunk_config (event jsmn_parse req) (view w)
  unfolding ota_ws_handler event
  handler-seen req w = elim (Bool-cases req.is_get) [
    | inl get ↦ rw get (handshake-seen be jsmn_parse chunk_config w)
    | inr frame ↦ rw frame (rw frame at (receive_frame-seen req w frame))
  ]

  -- Whatever frames arrive, in any order, with any answers of the server, the allocator, the tokenizer
  -- and the flash writer, and whatever the static variables hold at first: the frames, taken as
  -- events, make the protocol answer the same results, tell the client the same texts, make the same
  -- calls of the flash writer, leave the same transfer, and restart the chip or run into undefined
  -- behaviour where the handler does.
  pub serve-seen :
      (reqs : List Request) (w : Session be.State)
      → seen (serve be jsmn_parse chunk_config reqs w)
        ≡ run be chunk_config (events jsmn_parse reqs) (view w)
  unfolding serve run events seen
  serve-seen [] w = refl
  serve-seen (req ∷ reqs) w =
      seen-bind (ota_ws_handler be jsmn_parse chunk_config req w)
        (step be chunk_config (event jsmn_parse req) (view w))
        (λ ret. serve be jsmn_parse chunk_config reqs >>= λ rets. pure (ret ∷ rets))
        (λ ret. run be chunk_config (events jsmn_parse reqs) >>= λ rets. pure (ret ∷ rets))
        (handler-seen req w)
        (λ ret w1.
          seen-bind (serve be jsmn_parse chunk_config reqs w1)
            (run be chunk_config (events jsmn_parse reqs) (view w1)) (λ rets. pure (ret ∷ rets))
            (λ rets. pure (ret ∷ rets)) (serve-seen reqs w1) (λ rets w2. refl))
