-- ===== src/Http/Ending.antt =====
-- The handler on frames that do not end an update: it does not call `end_ota_ws`.
use ota_ws_update.Base.{
  ℕ, ◌+◌, ◌≡◌, refl, inl, inr, true, false, Option, none, some, Bytes, arith, ltb, ◌==◌, Bool-cases,
}
use ota_ws_update.Word.{add32}
use ota_ws_update.Esp.{is_err, reboot, bind}
use ota_ws_update.Backend.{Backend}
use ota_ws_update.Jsmn.{JsmnParse}
use ota_ws_update.Http.Session.{Session, ota_error}
use ota_ws_update.Http.Handler.{
  FrameType, text, binary, other_type, Request, filled, fail_with, begun, size_command,
  other_command, behind_size, command, parsed, text_frame, written, next_chunk, binary_frame,
  process_frame, received, recv_ret, receive_frame, handshake, ota_ws_handler,
}

-- The flash writer, stopped where an update ends.
abbrev pub without_end : Backend → Backend
without_end be = record be { end_ota_ws = λ s. reboot s }

-- A binary frame that arrives during an update does not reach the announced size.
abbrev pub GoesOn : {B : Type 0} → Request → Session B → Type 0
GoesOn req w =
    req.frame_type ≡ binary
    → (w.ota_started == 0) ≡ false
    → ltb (add32 w.ota_start_chunk req.len) w.ota_size ≡ true

module _ (be : Backend) (jsmn_parse : JsmnParse) (chunk_config : ℕ) where
  process_frame-without_end :
      (kind : FrameType) (len : ℕ) (buf : Option Bytes) (w : Session be.State)
      → (kind ≡ binary
          → (w.ota_started == 0) ≡ false
          → ltb (add32 w.ota_start_chunk len) w.ota_size ≡ true)
      → process_frame be jsmn_parse chunk_config kind len buf w
        ≡ process_frame (without_end be) jsmn_parse chunk_config kind len buf w
  unfolding process_frame text_frame parsed command behind_size other_command size_command begun
      fail_with ota_error binary_frame next_chunk written
  process_frame-without_end text len buf w more = refl
  process_frame-without_end binary len buf w more = elim (Bool-cases (w.ota_started == 0)) [
    | inl idle ↦ rw idle refl
    | inr running ↦ rw (running, more refl running) refl
  ]
  process_frame-without_end (other_type n) len buf w more = refl

  received-without_end :
      (req : Request) (w : Session be.State)
      → GoesOn req w
      → received be jsmn_parse chunk_config req w
        ≡ received (without_end be) jsmn_parse chunk_config req w
  unfolding received fail_with ota_error
  received-without_end req w more = elim (Bool-cases (is_err req.payload_ret)) [
    | inl failed ↦ rw failed refl
    | inr good ↦ rw good (
        process_frame-without_end req.frame_type req.len (some (filled req.len req.payload)) w more)
  ]

  -- A frame with a payload.
  payload-without_end :
      (req : Request) (w : Session be.State)
      → GoesOn req w
      → bind
          (received be jsmn_parse chunk_config req w)
          (recv_ret be jsmn_parse chunk_config (some (filled req.len req.payload)))
        ≡ bind
            (received (without_end be) jsmn_parse chunk_config req w)
            (recv_ret (without_end be) jsmn_parse chunk_config (some (filled req.len req.payload)))
  unfolding recv_ret
  payload-without_end req w more = rw (received-without_end req w more) refl

  empty-without_end :
      (req : Request) (w : Session be.State)
      → GoesOn req w
      → (req.len == 0) ≡ true
      → bind
          (process_frame be jsmn_parse chunk_config req.frame_type 0 none w)
          (recv_ret be jsmn_parse chunk_config none)
        ≡ bind
            (process_frame (without_end be) jsmn_parse chunk_config req.frame_type 0 none w)
            (recv_ret (without_end be) jsmn_parse chunk_config none)
  unfolding recv_ret
  empty-without_end req w more empty =
      let none_there : req.len ≡ 0 = ground arith in
      rw (process_frame-without_end req.frame_type 0 none w (λ b r. rw none_there at (more b r)))
        refl

  receive_frame-without_end :
      (req : Request) (w : Session be.State)
      → GoesOn req w
      → receive_frame be jsmn_parse chunk_config req w
        ≡ receive_frame (without_end be) jsmn_parse chunk_config req w
  unfolding receive_frame fail_with ota_error
  receive_frame-without_end req w more = elim (Bool-cases (is_err req.len_ret)) [
    | inl failed ↦ rw failed refl
    | inr good ↦ elim (Bool-cases (req.len == 0)) [
      | inl empty ↦ simp (good, empty, empty-without_end req w more empty)
      | inr longer ↦ elim (Bool-cases req.calloc_ok) [
        | inl given ↦ simp (
          good,
          longer,
          given,
          payload-without_end req (record w { live_bufs = w.live_bufs + 1 }) more,
        )
        | inr refused ↦ simp (good, longer, refused)
      ]
    ]
  ]

  -- A frame that is not a binary one, or comes while no update runs, or does not reach the announced size:
  -- the handler does the same with a flash writer whose `end_ota_ws` never returns, so it does not call
  -- `end_ota_ws`, whatever the server and the allocator answer.
  pub handler-without_end :
      (req : Request) (w : Session be.State)
      → GoesOn req w
      → ota_ws_handler be jsmn_parse chunk_config req w
        ≡ ota_ws_handler (without_end be) jsmn_parse chunk_config req w
  unfolding ota_ws_handler handshake
  handler-without_end req w more = elim (Bool-cases req.is_get) [
    | inl get ↦ simp get
    | inr frame ↦ simp (frame, receive_frame-without_end req w more)
  ]
