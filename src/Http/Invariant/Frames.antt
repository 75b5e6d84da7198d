-- ===== src/Http/Invariant/Frames.antt =====
-- The whole handler, frame by frame: what it keeps of the static variables, the receive buffers
-- and the flash writer's state.
use ota_ws_update.Base.{
  ℕ, true, false, ◌≤◌, ◌≡◌, refl, inl, inr, Option, none, some, arith, Bytes, Bool-cases, ◌==◌,
  codes, ◌+◌, if◌then◌else◌, length, take, replicate, [], ◌∷◌, ◌++◌, length-append, length-take,
  length-replicate,
}
use ota_ws_update.Esp.{EspErr, bind, is_err, esp_ok, esp_err_no_mem}
use ota_ws_update.Backend.{Backend, Ends, Holds, Keeps, >>=-Ends}
use ota_ws_update.Jsmn.{JsmnParse}
use ota_ws_update.Http.Session.{Session}
use ota_ws_update.Http.Json.{Parm, json_to_str_parm}
use ota_ws_update.Http.Handler.{
  filled, FrameType, text, binary, other_type, Request, parsed, text_frame, process_frame, received,
  recv_ret, receive_frame, handshake, ota_ws_handler,
}
use ota_ws_update.Http.Invariant.{
  IsConsistent, IsKept, fail_with-Ends, command-Ends, binary_frame-Ends,
}

-- The buffer that a request's frame is processed with.
abbrev pub frame_buf : Request → Option Bytes
frame_buf req = if req.len == 0 then none else some (filled req.len req.payload)

abbrev is_live : Option Bytes → ℕ
is_live none = 0
is_live (some _) = 1

-- A text frame's JSON is parsed with no undefined behaviour, unless X allows it.
abbrev pub Parses : {S : Type 0} → Type 0 → JsmnParse → Request → S → Type 0
Parses X jsmn_parse req s =
    req.frame_type ≡ text → Ends X (λ _ s'. s' ≡ s) (json_to_str_parm jsmn_parse (frame_buf req) s)

pub filled-holds : (len : ℕ) (payload : Bytes) → len ≤ length (filled len payload)
unfolding filled
filled-holds len payload = omega (
  arith,
  length-append {0} {A = ℕ} (take len (payload ++ replicate len 0)) (0 ∷ []),
  length-take {0} {A = ℕ} len (payload ++ replicate len 0) (
      omega (
        arith,
        length-append {0} {A = ℕ} payload (replicate len 0),
        length-replicate {0} {A = ℕ} len 0,
      )),
)

module _ (be : Backend) (jsmn_parse : JsmnParse) (chunk_config : ℕ) (X : Type 0)
    (P : be.State → Type 0) (keeps : Keeps X be P) where
  abbrev Post : {A : Type 0} → Session be.State → A → Session be.State → Type 0
  Post w _ w' = IsKept P w.live_bufs w'

  parsed-Ends :
      (p : Parm) (w : Session be.State)
      → P w.backend
      → IsConsistent w
      → Ends X (Post w) (parsed be jsmn_parse chunk_config p w)
  unfolding parsed
  parsed-Ends p w q c = elim (Bool-cases (is_err p.ret)) [
    | inl failed ↦
        rw failed
          (fail_with-Ends be jsmn_parse chunk_config X P keeps (codes "Error json str") esp_ok w q)
    | inr good ↦ rw good (command-Ends be jsmn_parse chunk_config X P keeps p.name p.value w q c)
  ]

  text_frame-Ends :
      (buf : Option Bytes) (w : Session be.State)
      → P w.backend
      → IsConsistent w
      → Ends X (λ _ w'. w' ≡ w) (json_to_str_parm jsmn_parse buf w)
      → Ends X (Post w) (text_frame be jsmn_parse chunk_config buf w)
  unfolding text_frame
  text_frame-Ends buf w p c json =
      >>=-Ends X (λ _ w'. w' ≡ w) (Post w) (json_to_str_parm jsmn_parse buf w)
        (parsed be jsmn_parse chunk_config) json (λ parm w' e. rw e (parsed-Ends parm w p c))

  process_frame-Ends :
      (frame_type : FrameType) (len : ℕ) (buf : Option Bytes) (w : Session be.State)
      → P w.backend
      → IsConsistent w
      → Holds buf len
      → (frame_type ≡ text → Ends X (λ _ w'. w' ≡ w) (json_to_str_parm jsmn_parse buf w))
      → Ends X (Post w) (process_frame be jsmn_parse chunk_config frame_type len buf w)
  unfolding process_frame
  process_frame-Ends text len buf w p c holds json = text_frame-Ends buf w p c (json refl)
  process_frame-Ends binary len buf w p c holds json = elim (Bool-cases (w.ota_started == 0)) [
    | inl idle ↦ rw idle (record { consistent = c; same_bufs = refl; kept = p })
    | inr running ↦
        rw running (
          binary_frame-Ends be jsmn_parse chunk_config X P keeps len buf w p holds c (ground arith))
  ]
  process_frame-Ends (other_type t) len buf w p c holds json = record {
    consistent = c;
    same_bufs = refl;
    kept = p;
  }

  recv_ret-Ends :
      (buf : Option Bytes) (bufs : ℕ) (ret : EspErr) (w : Session be.State)
      → IsKept P (bufs + is_live buf) w
      → Ends X (λ _. IsKept P bufs) (recv_ret be jsmn_parse chunk_config buf ret w)
  unfolding recv_ret
  recv_ret-Ends none bufs ret w k = ground arith
  recv_ret-Ends (some b) bufs ret w k = ground arith

  received-Ends :
      (req : Request) (w : Session be.State)
      → P w.backend
      → IsConsistent w
      → (req.frame_type ≡ text
          → Ends X
              (λ _ w'. w' ≡ w)
              (json_to_str_parm jsmn_parse (some (filled req.len req.payload)) w))
      → Ends X (Post w) (received be jsmn_parse chunk_config req w)
  unfolding received
  received-Ends req w p c json = elim (Bool-cases (is_err req.payload_ret)) [
    | inl failed ↦ rw failed (
        fail_with-Ends be jsmn_parse chunk_config X P keeps (codes "httpd_ws_recv_frame failed")
          req.payload_ret w p)
    | inr good ↦ rw good (
        process_frame-Ends req.frame_type req.len (some (filled req.len req.payload)) w p c
          (filled-holds req.len req.payload) json)
  ]

  receive_empty-Ends :
      (req : Request) (w : Session be.State)
      → P w.backend
      → IsConsistent w
      → (req.len == 0) ≡ true
      → Parses X jsmn_parse req w
      → Ends X (Post w) (
          bind
            (process_frame be jsmn_parse chunk_config req.frame_type 0 none w)
            (recv_ret be jsmn_parse chunk_config none))
  receive_empty-Ends req w p c empty json =
      >>=-Ends X (Post w) (Post w)
        (process_frame be jsmn_parse chunk_config req.frame_type 0 none w)
        (recv_ret be jsmn_parse chunk_config none)
        (process_frame-Ends req.frame_type 0 none w p c refl (rw empty at json))
        (λ ret w' k.
          recv_ret-Ends none w.live_bufs ret w'
            (record { consistent = k.consistent; same_bufs = omega arith; kept = k.kept }))

  receive_payload-Ends :
      (req : Request) (w : Session be.State)
      → P w.backend
      → IsConsistent w
      → (req.len == 0) ≡ false
      → Parses X jsmn_parse req (record w { live_bufs = w.live_bufs + 1 })
      → Ends X (Post w) (
          bind
            (received be jsmn_parse chunk_config req (record w { live_bufs = w.live_bufs + 1 }))
            (recv_ret be jsmn_parse chunk_config (some (filled req.len req.payload))))
  receive_payload-Ends req w p c longer json =
      let w1 = record w { live_bufs = w.live_bufs + 1 } in
      >>=-Ends X (Post w1) (Post w) (received be jsmn_parse chunk_config req w1)
        (recv_ret be jsmn_parse chunk_config (some (filled req.len req.payload)))
        (received-Ends req w1 p (record { flag = c.flag; idle = c.idle; running = c.running })
          (rw longer at json))
        (λ ret w' k. recv_ret-Ends (some (filled req.len req.payload)) w.live_bufs ret w' k)

  receive_frame-Ends :
      (req : Request) (w : Session be.State)
      → P w.backend
      → IsConsistent w
      → ((s : Session be.State) → Parses X jsmn_parse req s)
      → Ends X (Post w) (receive_frame be jsmn_parse chunk_config req w)
  unfolding receive_frame
  receive_frame-Ends req w p c json = elim (Bool-cases (is_err req.len_ret)) [
    | inl failed ↦ rw failed (
        fail_with-Ends be jsmn_parse chunk_config X P keeps
          (codes "httpd_ws_recv_frame failed to get frame len") req.len_ret w p)
    | inr good ↦ elim (Bool-cases (req.len == 0)) [
      | inl empty ↦ rw (good, empty) (receive_empty-Ends req w p c empty (json w))
      | inr longer ↦ elim (Bool-cases req.calloc_ok) [
        | inl given ↦
            simp (good, longer, given)
              (receive_payload-Ends req w p c longer
                (json (record w { live_bufs = w.live_bufs + 1 })))
        | inr refused ↦
            simp (good, longer, refused)
              (fail_with-Ends be jsmn_parse chunk_config X P keeps
                (codes "Failed to calloc memory for buf") esp_err_no_mem w p)
      ]
    ]
  ]

  handshake-Ends :
      (w : Session be.State)
      → P w.backend
      → IsConsistent w
      → Ends X (Post w) (handshake be jsmn_parse chunk_config w)
  unfolding handshake
  handshake-Ends w p c = ground (arith, keeps.check_keeps w.backend p)

  -- One call of the handler.
  pub ota_ws_handler-Ends :
      (req : Request) (w : Session be.State)
      → P w.backend
      → IsConsistent w
      → ((s : Session be.State) → Parses X jsmn_parse req s)
      → Ends X (λ _. IsKept P w.live_bufs) (ota_ws_handler be jsmn_parse chunk_config req w)
  unfolding ota_ws_handler
  ota_ws_handler-Ends req w p c json = elim (Bool-cases req.is_get) [
    | inl get ↦ simp get (handshake-Ends w p c)
    | inr frame ↦ simp frame (receive_frame-Ends req w p c json)
  ]
