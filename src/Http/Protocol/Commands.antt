-- ===== src/Http/Protocol/Commands.antt =====
-- The handshake and the JSON commands of `ota_ws_handler`, as steps of the protocol.
use ota_ws_update.Base.{
  ℕ, ◌≡◌, refl, ◌∙◌, inl, inr, Bool, true, false, Option, some, Bytes, ◌==◌, if◌then◌else◌,
  Bool-cases, ◌⊎◌, codes,
}
use ota_ws_update.Text.{atoi, strncmp_is_zero}
use ota_ws_update.Text.Laws.{strncmp_is_zero_iff}
use ota_ws_update.Esp.{
  EspErr, esp_ok, Fault, is_err, Outcome, done, reboot, crash, bind, pure, ◌>>◌, ◌>>=◌,
}
use ota_ws_update.Backend.{Backend}
use ota_ws_update.Jsmn.{JsmnParse}
use ota_ws_update.Http.Keys
use ota_ws_update.Http.Session.{Session, with_backend, ota_error, send_json_string}
use ota_ws_update.Http.Message.{check_rollback_message, error_message}
use ota_ws_update.Http.Json.{Parm, json_to_str_parm}
use ota_ws_update.Http.Handler.{
  is_key, fail_with, begun, size_command, other_command, behind_size, command, parsed, text_frame,
  handshake,
}
use ota_ws_update.Http.Protocol.{
  Transfer, connected, announce, Peer, answered, call, say, become, give_up, begin, greet, step,
  command_event, parsed_event,
}
use ota_ws_update.Http.Protocol.View.{
  transfer_of, view, seen, seen-call, told, bind_assoc, seen-lift,
}
use ota_ws_update.Http.Json.Answer.{placed, json-IsAnswer}

module _ (be : Backend) (jsmn_parse : JsmnParse) (chunk_config : ℕ) where
  pub ota_error-seen :
      (code msg : Bytes) (ret : EspErr) (w : Session be.State)
      → seen (bind (ota_error be code msg w) (λ _. pure ret))
        ≡ give_up be chunk_config code msg ret (view w)
  unfolding ota_error give_up call become transfer_of seen
  ota_error-seen code msg ret w = told (error_message code msg) ret w (be.abort_ota_ws w.backend)

  -- The handshake.
  greet-seen :
      (pending : Bool) (w : Session be.State)
      → seen (
          bind
            ((if pending then send_json_string check_rollback_message else pure tt) w)
            (λ _. pure esp_ok))
        ≡ greet be chunk_config pending (view w)
  unfolding greet seen send_json_string say transfer_of
  greet-seen true w = refl
  greet-seen false w = refl

  pub handshake-seen :
      (w : Session be.State)
      → seen (handshake be jsmn_parse chunk_config w) ≡ step be chunk_config connected (view w)
  unfolding handshake step call transfer_of
  handshake-seen w =
      seen-call w (view w) (be.check_ota_ws_rollback_enable w.backend)
        (λ pending.
          (if pending then send_json_string check_rollback_message else pure tt) >> pure esp_ok)
        (greet be chunk_config) refl (λ pending b. greet-seen pending (record w { backend = b }))

  left_by_goto :
      (key value : Bytes) (o : Outcome (Session be.State) EspErr)
      → bind (bind o (λ ret. pure (some ret))) (behind_size be jsmn_parse chunk_config key value)
        ≡ o
  unfolding behind_size
  left_by_goto key value (done ret w) = refl
  left_by_goto key value (reboot w) = refl
  left_by_goto key value (crash f) = refl

  -- "otaSize" is none of the names behind it.
  other_command-size :
      (key value : Bytes) (w : Session be.State)
      → is_key key Keys.ota_size_start ≡ true
      → other_command be jsmn_parse chunk_config key value w ≡ done esp_ok w
  unfolding other_command is_key strncmp_is_zero
  other_command-size key value w h = rw ((strncmp_is_zero_iff key Keys.ota_size_start).0 h) refl

  -- The start of a transfer.
  begun-seen :
      (key value : Bytes) (err : EspErr) (w : Session be.State)
      → is_key key Keys.ota_size_start ≡ true
      → seen (
          bind
            (begun be jsmn_parse chunk_config err w)
            (behind_size be jsmn_parse chunk_config key value))
        ≡ begin be chunk_config w.ota_size err (view w)
  unfolding begun begin fail_with behind_size send_json_string say become seen transfer_of
  begun-seen key value err w name = elim (Bool-cases (is_err err)) [
    | inl bad ↦ simp (
      bad,
      left_by_goto key value
          (bind (ota_error be Keys.ota_error (codes "Error start ota") w) (λ _. pure err)),
      ota_error-seen Keys.ota_error (codes "Error start ota") err w,
    )
    | inr good ↦ simp (good, other_command-size key value _ name)
  ]

  -- A start does not look at the transfer that it replaces.
  begin-fresh :
      (size : ℕ) (err : EspErr) (p : Peer be.State) (t : Transfer)
      → begin be chunk_config size err (record p { transfer = t })
        ≡ begin be chunk_config size err p
  unfolding begin give_up become
  begin-fresh size err p t = elim (Bool-cases (is_err err)) [
    | inl bad ↦ simp bad
    | inr good ↦ simp good
  ]

  started-seen :
      (key value : Bytes) (size : ℕ) (w : Session be.State)
      → is_key key Keys.ota_size_start ≡ true
      → seen (
          bind (with_backend (record w { ota_size = size }) (be.start_ota_ws w.backend)) (λ err.
            begun be jsmn_parse chunk_config err
            >>= behind_size be jsmn_parse chunk_config key value))
        ≡ bind (answered (view w) (be.start_ota_ws w.backend)) (begin be chunk_config size)
  unfolding transfer_of
  started-seen key value size w name =
      let w1 : Session be.State = record w { ota_size = size } in
      seen-call w1 (view w) (be.start_ota_ws w.backend)
        (λ err.
          begun be jsmn_parse chunk_config err >>= behind_size be jsmn_parse chunk_config key value)
        (begin be chunk_config size) refl
        (λ err b.
          begun-seen key value err (record w1 { backend = b }) name
          ∙ begin-fresh size err (record (view w) { backend = b }) (transfer_of w1))

  size_command-seen :
      (key value : Bytes) (w : Session be.State)
      → is_key key Keys.ota_size_start ≡ true
      → seen (
          bind
            (size_command be jsmn_parse chunk_config value w)
            (behind_size be jsmn_parse chunk_config key value))
        ≡ step be chunk_config (announce (atoi value)) (view w)
  unfolding size_command step fail_with call give_up become
  size_command-seen key value w name =
      let w1 : Session be.State = record w { ota_size = atoi value } in
      let none_there = codes "Error ota size = 0" in
      elim (Bool-cases (atoi value == 0)) [
        | inl nothing_announced ↦ simp (
          nothing_announced,
          left_by_goto key value
              (bind (ota_error be Keys.ota_error none_there w1) (λ _. pure esp_ok)),
          ota_error-seen Keys.ota_error none_there esp_ok w1,
        )
        | inr size ↦ simp (
          size,
          bind_assoc (with_backend w1 (be.start_ota_ws w.backend))
              (begun be jsmn_parse chunk_config) (behind_size be jsmn_parse chunk_config key value),
          started-seen key value (atoi value) w name,
        )
      ]

  other_command-seen :
      (key value : Bytes) (w : Session be.State)
      → is_key key Keys.ota_size_start ≡ false
      → seen (other_command be jsmn_parse chunk_config key value w)
        ≡ step be chunk_config (command_event key value) (view w)
  unfolding other_command command_event step fail_with call seen
  other_command-seen key value w name = elim (Bool-cases (is_key key Keys.ota_cancel)) [
    | inl c ↦ rw (name, c) (ota_error-seen Keys.ota_cancel (codes "Cancel command") esp_ok w)
    | inr c ↦ elim (Bool-cases (is_key key Keys.ota_error)) [
      | inl e ↦ rw (name, c, e) (ota_error-seen Keys.ota_error (codes "Error command") esp_ok w)
      | inr e ↦ elim (Bool-cases (is_key key Keys.ota_process_rollback)) [
        | inl r ↦ rw (name, c, e, r) (seen-lift w _)
        | inr r ↦ elim (Bool-cases (is_key key Keys.ota_restart_esp)) [
          | inl x ↦ rw (name, c, e, r, x) refl
          | inr x ↦ rw (name, c, e, r, x) refl
        ]
      ]
    ]
  ]

  command-seen :
      (key value : Bytes) (w : Session be.State)
      → seen (command be jsmn_parse chunk_config key value w)
        ≡ step be chunk_config (command_event key value) (view w)
  unfolding command command_event behind_size
  command-seen key value w = elim (Bool-cases (is_key key Keys.ota_size_start)) [
    | inl size ↦ simp (size, size_command-seen key value w size)
    | inr other ↦ rw other (rw other at (other_command-seen key value w other))
  ]

  -- The frames.
  parsed-seen :
      (p : Parm) (w : Session be.State)
      → seen (parsed be jsmn_parse chunk_config p w)
        ≡ step be chunk_config (parsed_event (done p tt)) (view w)
  unfolding parsed parsed_event fail_with step
  parsed-seen p w = elim (Bool-cases (is_err p.ret)) [
    | inl bad ↦ rw bad (ota_error-seen Keys.ota_error (codes "Error json str") esp_ok w)
    | inr good ↦ rw good (command-seen p.name p.value w)
  ]

  placed-seen :
      (r : Fault ⊎ Parm) (w : Session be.State)
      → seen (bind (placed r w) (parsed be jsmn_parse chunk_config))
        ≡ step be chunk_config (parsed_event (placed r tt)) (view w)
  unfolding seen parsed_event step
  placed-seen (inl f) w = refl
  placed-seen (inr p) w = parsed-seen p w

  pub text-seen :
      (buf : Option Bytes) (w : Session be.State)
      → seen (text_frame be jsmn_parse chunk_config buf w)
        ≡ step be chunk_config (parsed_event (json_to_str_parm jsmn_parse buf tt)) (view w)
  unfolding text_frame
  text-seen buf w =
      let a = json-IsAnswer jsmn_parse buf in
      rw (a.1 (Session be.State) w, a.1 (Unit {0}) tt) (placed-seen a.0 w)
