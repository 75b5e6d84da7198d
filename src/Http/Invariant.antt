-- ===== src/Http/Invariant.antt =====
-- What holds of the handler's static variables between two frames, command by command and chunk
-- by chunk; the whole handler is in Frames.
pub mod Frames
use ota_ws_update.Base.{
  ℕ, zero, ◌≤◌, ◌<◌, ◌≡◌, refl, ◌⊎◌, inl, inr, Option, none, some, arith, Bytes, Bool-cases, ◌==◌,
  ltb, codes, ◌≢◌, ◌+◌, if◌then◌else◌, length, take, replicate, [], ◌∷◌, ◌++◌, length-append,
  length-take, length-replicate,
}
use ota_ws_update.Esp.{EspErr, Outcome, done, reboot, crash, M, bind, is_err}
use ota_ws_update.Backend.{Backend, Ends, Holds, Keeps, >>=-Ends}
use ota_ws_update.Word.{add32}
use ota_ws_update.Text.{atoi}
use ota_ws_update.Jsmn.{JsmnParse}
use ota_ws_update.Http.Keys
use ota_ws_update.Http.Session.{Session, lift, with_backend, ota_error}
use ota_ws_update.Http.Json.{Parm, json_to_str_parm}
use ota_ws_update.Http.Handler.{
  filled, FrameType, text, binary, other_type, Request, is_key, fail_with, begun, size_command,
  other_command, behind_size, command, parsed, text_frame, written, next_chunk, ended, last_written,
  last_chunk, binary_frame, process_frame, received, recv_ret, receive_frame, handshake,
  ota_ws_handler,
}

-- Either no update runs and the counters are zero, or one runs and its next chunk starts in front
-- of the announced end.
pub record IsConsistent {B : Type 0} (w : Session B) : Type 0 where
  pub flag : (w.ota_started ≡ 0) ⊎ (w.ota_started ≡ 1)
  pub idle : w.ota_started ≡ 0 → (w.ota_size ≡ 0) × (w.ota_start_chunk ≡ 0)
  pub running : w.ota_started ≡ 1 → w.ota_start_chunk < w.ota_size

-- After a call: consistent, with `bufs` receive buffers live and P of the flash writer's state.
pub record IsKept {B : Type 0} (P : B → Type 0) (bufs : ℕ) (w : Session B) : Type 0 where
  pub consistent : IsConsistent w
  pub same_bufs : w.live_bufs ≡ bufs
  pub kept : P w.backend

-- A call of the flash writer, and what is done with its result.
lift-Ends :
    {B A C : Type 0} (X : Type 0) (P : B → Type 0) (Q : C → Session B → Type 0) (w : Session B)
    (o : Outcome B A) (k : A → M (Session B) C)
    → Ends X (λ _. P) o
    → ((a : A) (b : B) → P b → Ends X Q (k a (record w { backend = b })))
    → Ends X Q (bind (with_backend w o) k)
lift-Ends X P Q w (done a b) k h next = next a b h
lift-Ends X P Q w (reboot b) k h next = tt
lift-Ends X P Q w (crash f) k h next = h

module _ (be : Backend) (jsmn_parse : JsmnParse) (chunk_config : ℕ) (X : Type 0)
    (P : be.State → Type 0) (keeps : Keeps X be P) where
  abbrev Post : {A : Type 0} → Session be.State → A → Session be.State → Type 0
  Post w _ w' = IsKept P w.live_bufs w'

  fail_with-Ends :
      (msg : Bytes) (ret : EspErr) (w : Session be.State)
      → P w.backend
      → Ends X (Post w) (fail_with be jsmn_parse chunk_config msg ret w)
  unfolding fail_with
  fail_with-Ends msg ret w p = ground (arith, keeps.abort_keeps w.backend p)

  begun-Ends :
      (err : EspErr) (w : Session be.State)
      → P w.backend
      → 0 < w.ota_size
      → Ends X (Post w) (begun be jsmn_parse chunk_config err w)
  unfolding begun
  begun-Ends err w p h = ground (arith, keeps.abort_keeps w.backend p)

  size_command-Ends :
      (value : Bytes) (w : Session be.State)
      → P w.backend
      → Ends X (Post w) (size_command be jsmn_parse chunk_config value w)
  unfolding size_command fail_with
  size_command-Ends value w p = elim (Bool-cases (atoi value == 0)) [
    | inl none_announced ↦ rw none_announced (ground (arith, keeps.abort_keeps w.backend p))
    | inr announced ↦ rw announced (
        lift-Ends X P (Post w) (record w { ota_size = atoi value }) (be.start_ota_ws w.backend)
          (begun be jsmn_parse chunk_config) (keeps.start_keeps w.backend p)
          (λ err b q.
            begun-Ends err (record w { ota_size = atoi value; backend = b }) q (ground arith)))
  ]

  other_command-Ends :
      (key value : Bytes) (w : Session be.State)
      → P w.backend
      → IsConsistent w
      → Ends X (Post w) (other_command be jsmn_parse chunk_config key value w)
  unfolding other_command
  other_command-Ends key value w p c = ground (
    arith,
    keeps.abort_keeps w.backend p,
    keeps.rollback_keeps (is_key value (codes "true")) w.backend p,
  )

  behind_size-Ends :
      (key value : Bytes) (bufs : ℕ) (left : Option EspErr) (w : Session be.State)
      → IsKept P bufs w
      → Ends X (λ _. IsKept P bufs) (behind_size be jsmn_parse chunk_config key value left w)
  unfolding behind_size
  behind_size-Ends key value bufs (some ret) w k = k
  behind_size-Ends key value bufs none w k =
      rw (← k.same_bufs) (other_command-Ends key value w k.kept k.consistent)

  command-Ends :
      (key value : Bytes) (w : Session be.State)
      → P w.backend
      → IsConsistent w
      → Ends X (Post w) (command be jsmn_parse chunk_config key value w)
  unfolding command
  command-Ends key value w p c = elim (Bool-cases (is_key key Keys.ota_size_start)) [
    | inl is_size ↦ rw is_size (
        >>=-Ends X (Post w) (Post w) (size_command be jsmn_parse chunk_config value w)
          (behind_size be jsmn_parse chunk_config key value) (size_command-Ends value w p)
          (behind_size-Ends key value w.live_bufs))
    | inr is_other ↦ rw is_other (
        behind_size-Ends key value w.live_bufs none w
          (record { consistent = c; same_bufs = refl; kept = p }))
  ]

  written-Ends :
      (len : ℕ) (ret : EspErr) (w : Session be.State)
      → P w.backend
      → IsConsistent w
      → w.ota_started ≢ 0
      → add32 w.ota_start_chunk len < w.ota_size
      → Ends X (Post w) (written be jsmn_parse chunk_config len ret w)
  unfolding written fail_with
  written-Ends len ret w p c s h = ground (arith, keeps.abort_keeps w.backend p)

  ended-Ends :
      (ret : EspErr) (w : Session be.State)
      → P w.backend
      → Ends X (Post w) (ended be jsmn_parse chunk_config ret w)
  unfolding ended fail_with
  ended-Ends ret w p = ground (arith, keeps.abort_keeps w.backend p)

  last_written-Ends :
      (ret : EspErr) (w : Session be.State)
      → P w.backend
      → Ends X (Post w) (last_written be jsmn_parse chunk_config ret w)
  unfolding last_written
  last_written-Ends ret w p = elim (Bool-cases (is_err ret)) [
    | inl failed ↦ rw failed (fail_with-Ends (codes "Error write ota") ret w p)
    | inr succeeded ↦ rw succeeded (
        lift-Ends X P (Post w) w (be.end_ota_ws w.backend) (ended be jsmn_parse chunk_config)
          (keeps.end_keeps w.backend p) (λ err b q. ended-Ends err (record w { backend = b }) q))
  ]

  binary_frame-Ends :
      (len : ℕ) (buf : Option Bytes) (w : Session be.State)
      → P w.backend
      → Holds buf len
      → IsConsistent w
      → w.ota_started ≢ 0
      → Ends X (Post w) (binary_frame be jsmn_parse chunk_config len buf w)
  unfolding binary_frame next_chunk last_chunk
  binary_frame-Ends len buf w p holds c s =
      elim (Bool-cases (ltb (add32 w.ota_start_chunk len) w.ota_size)) [
        | inl more ↦ rw more (
            lift-Ends X P (Post w) w (be.write_ota_ws len buf w.backend)
              (written be jsmn_parse chunk_config len) (keeps.write_keeps len buf w.backend p holds)
              (λ err b q.
                written-Ends len err (record w { backend = b }) q
                  (record { flag = c.flag; idle = c.idle; running = c.running }) s (ground arith)))
        | inr last ↦ rw last (
            lift-Ends X P (Post w) w (be.write_ota_ws len buf w.backend)
              (last_written be jsmn_parse chunk_config)
              (keeps.write_keeps len buf w.backend p holds)
              (λ err b q. last_written-Ends err (record w { backend = b }) q))
      ]
