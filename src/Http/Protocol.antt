-- ===== src/Http/Protocol.antt =====
-- The protocol of an update over the web socket, as a contract of `ota_ws_handler` in
-- source/ota_ws_update_http.c. It is an automaton on the events that a frame can be, with the states
-- "no transfer" and "receiving so many bytes, the next one at this offset" in place of the three
-- static variables. It knows nothing of receive buffers and of the order of the handler's tests.
pub mod View
pub mod Commands
pub mod Refines
use ota_ws_update.Base.{
  ℕ, suc, Bool, List, [], ◌∷◌, Option, none, some, ltb, ◌==◌, if◌then◌else◌, Bytes, codes,
}
use ota_ws_update.Word.{add32}
use ota_ws_update.Text.{atoi}
use ota_ws_update.Esp.{
  EspErr, esp_ok, esp_err_no_mem, is_err, Fault, Outcome, done, reboot, crash, M, pure, fault,
  ◌>>=◌, ◌>>◌, modify,
}
use ota_ws_update.Backend.{Backend}
use ota_ws_update.Jsmn.{JsmnParse}
use ota_ws_update.Http.Keys
use ota_ws_update.Http.Message.{
  error_message, check_rollback_message, set_chunk_size_message, first_chunk_message,
  next_chunk_message, end_message,
}
use ota_ws_update.Http.Json.{Parm, json_to_str_parm}
use ota_ws_update.Http.Handler.{
  FrameType, text, binary, other_type, Request, filled, ota_chunk_size, is_key,
}

pub data Transfer : Type 0 where
  no_transfer : Transfer
  receiving : ℕ → ℕ → Transfer

-- What a frame is to the protocol.
pub data Event : Type 0 where
  connected : Event
  failed : Bytes → EspErr → Event
  unreadable : Fault → Event
  announce : ℕ → Event
  cancel reported_error : Event
  decide : Bool → Event
  restart : Event
  chunk : ℕ → Option Bytes → Event
  nothing : Event

pub record Peer (B : Type 0) : Type 0 where
  pub transfer : Transfer
  pub backend : B
  pub sent : List Bytes

module _ {B : Type 0} where
  -- A restart of the chip leaves no transfer.
  unfoldable pub restarted : Peer B → Peer B
  restarted p = record p { transfer = no_transfer }

  -- A call of the flash writer.
  unfoldable pub answered : {A : Type 0} → Peer B → Outcome B A → Outcome (Peer B) A
  unfolding restarted
  answered p (done a b) = done a (record p { backend = b })
  answered p (reboot b) = reboot (restarted (record p { backend = b }))
  answered p (crash f) = crash f

  unfoldable pub call : {A : Type 0} → M B A → M (Peer B) A
  call m p = answered p (m p.backend)

  unfoldable pub say : Bytes → M (Peer B) (Unit {0})
  say str = modify λ p. record p { sent = str ∷ p.sent }

  unfoldable pub become : Transfer → M (Peer B) (Unit {0})
  become t = modify λ p. record p { transfer = t }

module _ (be : Backend) (chunk_config : ℕ) where
  abbrev pub Reply : Type 0
  Reply = M (Peer be.State) EspErr

  -- The transfer is given up, and the client is told why.
  unfoldable pub give_up : Bytes → Bytes → EspErr → Reply
  unfolding call say become
  give_up code msg ret = do
    become no_transfer
    call be.abort_ota_ws
    say (error_message code msg)
    pure ret

  unfoldable pub begin : ℕ → EspErr → Reply
  unfolding give_up say become
  begin size err = if is_err err then give_up Keys.ota_error (codes "Error start ota") err else do
    become (receiving size 0)
    say (set_chunk_size_message (ota_chunk_size chunk_config))
    say (first_chunk_message 0)
    pure esp_ok

  unfoldable pub finish : EspErr → Reply
  unfolding give_up say become
  finish ret =
      if is_err ret
      then give_up Keys.ota_error (codes "Error end ota") ret
      else do become no_transfer; say end_message; pure ret

  -- A chunk was handed to the flash writer, and the transfer is at the offset `next` behind it.
  unfoldable pub advance : ℕ → ℕ → EspErr → Reply
  unfolding give_up finish call say become
  advance size next ret =
      if is_err ret
      then give_up Keys.ota_error (codes "Error write ota") ret
      else if ltb next size
      then (do become (receiving size next); say (next_chunk_message next); pure ret)
      else call be.end_ota_ws >>= finish

  unfoldable pub take_chunk : Transfer → ℕ → Option Bytes → Reply
  unfolding call
  take_chunk no_transfer len buf = pure esp_ok
  take_chunk (receiving size start) len buf =
      call (be.write_ota_ws len buf) >>= advance size (add32 start len)

  unfoldable pub greet : Bool → Reply
  unfolding say
  greet pending = do if pending then say check_rollback_message else pure tt; pure esp_ok

  unfoldable pub step : Event → Reply
  unfolding call give_up restarted
  step connected = call be.check_ota_ws_rollback_enable >>= greet
  step (failed msg ret) = give_up Keys.ota_error msg ret
  step (unreadable f) = fault f
  step (announce size) =
      if size == 0
      then give_up Keys.ota_error (codes "Error ota size = 0") esp_ok
      else call be.start_ota_ws >>= begin size
  step cancel = give_up Keys.ota_cancel (codes "Cancel command") esp_ok
  step reported_error = give_up Keys.ota_error (codes "Error command") esp_ok
  step (decide rollback) = call (be.rollback_ota_ws rollback)
  step restart = λ p. reboot (restarted p)
  step (chunk len buf) = λ p. take_chunk p.transfer len buf p
  step nothing = pure esp_ok

  unfoldable pub run : List Event → M (Peer be.State) (List EspErr)
  run [] = pure []
  run (e ∷ es) = do ret ← step e; rets ← run es; pure (ret ∷ rets)

-- Which event a frame is.
unfoldable pub command_event : Bytes → Bytes → Event
command_event name value =
    if is_key name Keys.ota_size_start
    then announce (atoi value)
    else if is_key name Keys.ota_cancel
    then cancel
    else if is_key name Keys.ota_error
    then reported_error
    else if is_key name Keys.ota_process_rollback
    then decide (is_key value (codes "true"))
    else if is_key name Keys.ota_restart_esp
    then restart
    else nothing

unfoldable pub parsed_event : Outcome (Unit {0}) Parm → Event
parsed_event (done p _) =
    if is_err p.ret then failed (codes "Error json str") esp_ok else command_event p.name p.value
parsed_event (reboot _) = nothing
parsed_event (crash f) = unreadable f

module _ (jsmn_parse : JsmnParse) where
  unfoldable pub frame_event : FrameType → ℕ → Option Bytes → Event
  frame_event text len buf = parsed_event (json_to_str_parm jsmn_parse buf tt)
  frame_event binary len buf = chunk len buf
  frame_event (other_type _) len buf = nothing

  unfoldable pub event : Request → Event
  unfolding frame_event
  event req =
      if req.is_get
      then connected
      else if is_err req.len_ret
      then failed (codes "httpd_ws_recv_frame failed to get frame len") req.len_ret
      else if req.len == 0
      then frame_event req.frame_type 0 none
      else if req.calloc_ok
      then (if is_err req.payload_ret
          then failed (codes "httpd_ws_recv_frame failed") req.payload_ret
          else frame_event req.frame_type req.len (some (filled req.len req.payload)))
      else failed (codes "Failed to calloc memory for buf") esp_err_no_mem

  unfoldable pub events : List Request → List Event
  events [] = []
  events (req ∷ reqs) = event req ∷ events reqs
