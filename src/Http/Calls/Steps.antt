-- ===== src/Http/Calls/Steps.antt =====
-- The steps of the protocol and the order of calls: each step leaves the flash writer's calls in order.
use ota_ws_update.Base.{
  ℕ, ◌≡◌, refl, Bool, true, false, inl, inr, Option, some, ◌∷◌, Bytes, ◌==◌, ltb, if◌then◌else◌,
  Bool-cases, codes,
}
use ota_ws_update.Word.{add32}
use ota_ws_update.Esp.{EspErr, esp_ok, is_err, Outcome, done, reboot, crash, M, bind, pure, ◌>>◌}
use ota_ws_update.Backend.{Backend, Ends}
use ota_ws_update.Http.Keys
use ota_ws_update.Http.Message.{error_message}
use ota_ws_update.Http.Session.{Session}
use ota_ws_update.Http.Protocol.{
  Transfer, no_transfer, receiving, Event, connected, failed, unreadable, announce, cancel,
  reported_error, decide, restart, chunk, nothing, Peer, answered, call, say, become, give_up,
  begin, finish, advance, take_chunk, greet, step,
}
use ota_ws_update.Http.Protocol.View.{transfer_of}
use ota_ws_update.Http.Calls.{
  Call, started, wrote, ended, aborted, Logged, recorded, unrecorded, logged, Stage, no_update,
  failing, in_update, after, stage_after, stage_of,
}

unfoldable pub stage : Transfer → Stage
stage no_transfer = no_update
stage (receiving size start) = in_update start

pub stage-transfer_of : {B : Type 0} (w : Session B) → stage (transfer_of w) ≡ stage_of w
unfolding stage transfer_of stage_of
stage-transfer_of w = elim (Bool-cases (w.ota_started == 0)) [
  | inl idle ↦ rw idle refl
  | inr running ↦ rw running refl
]

module _ {B A : Type 0} (Q : A → Peer (Logged B) → Type 0) where
  -- A recorded call, and what is done with its answer.
  pub recorded-Ends :
      (f : EspErr → Call) (o : Outcome B EspErr) (p : Peer (Logged B))
      (k : EspErr → M (Peer (Logged B)) A)
      → ((ret : EspErr) (b : B)
          → o ≡ done ret b
          → Ends (Unit {0}) Q (
              k ret (record p { backend = record { inner = b; calls = f ret ∷ p.backend.calls } })))
      → Ends (Unit {0}) Q (bind (answered p (recorded f o p.backend.calls)) k)
  unfolding answered recorded
  recorded-Ends f (done ret b) p k h = h ret b refl
  recorded-Ends f (reboot b) p k h = tt
  recorded-Ends f (crash e) p k h = tt

  pub unrecorded-Ends :
      {C : Type 0} (o : Outcome B C) (p : Peer (Logged B)) (k : C → M (Peer (Logged B)) A)
      → ((c : C) (b : B)
          → o ≡ done c b
          → Ends
              (Unit {0})
              Q
              (k c (record p { backend = record { inner = b; calls = p.backend.calls } })))
      → Ends (Unit {0}) Q (bind (answered p (unrecorded o p.backend.calls)) k)
  unfolding answered unrecorded
  unrecorded-Ends (done c b) p k h = h c b refl
  unrecorded-Ends (reboot b) p k h = tt
  unrecorded-Ends (crash e) p k h = tt

module _ (be : Backend) (chunk_config : ℕ) where
  abbrev pub P : Type 0
  P = Peer (Logged be.State)

  -- The calls so far are in order, and stand where the transfer does.
  abbrev pub InOrder : P → Type 0
  InOrder p = stage_after p.backend.calls ≡ some (stage p.transfer)

  abbrev pub Good : {A : Type 0} → Outcome P A → Type 0
  Good o = Ends (Unit {0}) (λ _. InOrder) o

  give_up-InOrder :
      (code msg : Bytes) (ret : EspErr) (p : P) (s : Stage)
      → stage_after p.backend.calls ≡ some s
      → Good (give_up (logged be) chunk_config code msg ret p)
  unfolding give_up call say become stage_after after stage
  give_up-InOrder code msg ret p s h =
      recorded-Ends (λ _. InOrder) aborted (be.abort_ota_ws p.backend.inner)
        (record p { transfer = no_transfer }) (λ _. say (error_message code msg) >> pure ret)
        (λ r b _. rw h refl)

  finish-InOrder :
      (ret : EspErr) (p : P)
      → stage_after p.backend.calls ≡ some (if is_err ret then failing else no_update)
      → Good (finish (logged be) chunk_config ret p)
  unfolding finish say become stage
  finish-InOrder ret p h = elim (Bool-cases (is_err ret)) [
    | inl bad ↦
        rw bad (give_up-InOrder Keys.ota_error (codes "Error end ota") ret p failing (rw bad at h))
    | inr good ↦ rw good (rw good at h)
  ]

  begin-InOrder :
      (size : ℕ) (err : EspErr) (p : P)
      → stage_after p.backend.calls ≡ some (if is_err err then failing else in_update 0)
      → Good (begin (logged be) chunk_config size err p)
  unfolding begin say become stage
  begin-InOrder size err p h = elim (Bool-cases (is_err err)) [
    | inl bad ↦
        rw bad
          (give_up-InOrder Keys.ota_error (codes "Error start ota") err p failing (rw bad at h))
    | inr good ↦ rw good (rw good at h)
  ]

  end-InOrder :
      (next : ℕ) (p : P)
      → stage_after p.backend.calls ≡ some (in_update next)
      → Good (bind (call (logged be).end_ota_ws p) (finish (logged be) chunk_config))
  unfolding call stage_after after
  end-InOrder next p h =
      recorded-Ends (λ _. InOrder) ended (be.end_ota_ws p.backend.inner) p
        (finish (logged be) chunk_config)
        (λ r b _.
          finish-InOrder r
            (record p { backend = record { inner = b; calls = ended r ∷ p.backend.calls } })
            (rw h refl))

  advance-InOrder :
      (size next : ℕ) (ret : EspErr) (p : P)
      → stage_after p.backend.calls ≡ some (if is_err ret then failing else in_update next)
      → Good (advance (logged be) chunk_config size next ret p)
  unfolding advance say become stage
  advance-InOrder size next ret p h = elim (Bool-cases (is_err ret)) [
    | inl bad ↦
        rw bad
          (give_up-InOrder Keys.ota_error (codes "Error write ota") ret p failing (rw bad at h))
    | inr good ↦ elim (Bool-cases (ltb next size)) [
      | inl more ↦ rw (good, more) (rw good at h)
      | inr last ↦ rw (good, last) (end-InOrder next p (rw good at h))
    ]
  ]

  take_chunk-InOrder :
      (t : Transfer) (len : ℕ) (buf : Option Bytes) (p : P)
      → p.transfer ≡ t
      → InOrder p
      → Good (take_chunk (logged be) chunk_config t len buf p)
  unfolding take_chunk call stage stage_after after
  take_chunk-InOrder no_transfer len buf p e h = h
  take_chunk-InOrder (receiving size start) len buf p e h =
      recorded-Ends (λ _. InOrder) (wrote len buf) (be.write_ota_ws len buf p.backend.inner) p
        (advance (logged be) chunk_config size (add32 start len))
        (λ r b _.
          advance-InOrder size (add32 start len) r
            (record p { backend = record { inner = b; calls = wrote len buf r ∷ p.backend.calls } })
            (rw (h, e) refl))

  start-InOrder :
      (t : Transfer) (size : ℕ) (p : P)
      → stage_after p.backend.calls ≡ some (stage t)
      → Good (bind (call (logged be).start_ota_ws p) (begin (logged be) chunk_config size))
  unfolding call stage_after after stage
  start-InOrder t size p h =
      recorded-Ends (λ _. InOrder) started (be.start_ota_ws p.backend.inner) p
        (begin (logged be) chunk_config size)
        (λ r b _.
          begin-InOrder size r
            (record p { backend = record { inner = b; calls = started r ∷ p.backend.calls } })
            (rw h (fresh t r)))
    where
      fresh :
          (t : Transfer) (r : EspErr)
          → after (started r) (stage t) ≡ some (if is_err r then failing else in_update 0)
      fresh no_transfer r = refl
      fresh (receiving m k) r = refl

  greet-InOrder :
      (pending : Bool) (p : P) → InOrder p → Good (greet (logged be) chunk_config pending p)
  unfolding greet say
  greet-InOrder true p h = h
  greet-InOrder false p h = h

  decided-InOrder :
      {A : Type 0} (p : P) (o : Outcome be.State A)
      → InOrder p
      → Good (answered p (unrecorded o p.backend.calls))
  unfolding answered unrecorded
  decided-InOrder p (done a b) h = h
  decided-InOrder p (reboot b) h = tt
  decided-InOrder p (crash f) h = tt

  pub step-InOrder : (e : Event) (p : P) → InOrder p → Good (step (logged be) chunk_config e p)
  unfolding step call
  step-InOrder connected p h =
      unrecorded-Ends (λ _. InOrder) (be.check_ota_ws_rollback_enable p.backend.inner) p
        (greet (logged be) chunk_config)
        (λ pending b _.
          greet-InOrder pending
            (record p { backend = record { inner = b; calls = p.backend.calls } }) h)
  step-InOrder (failed msg ret) p h = give_up-InOrder Keys.ota_error msg ret p (stage p.transfer) h
  step-InOrder (unreadable f) p h = tt
  step-InOrder (announce size) p h = elim (Bool-cases (size == 0)) [
    | inl zero ↦
        rw zero (
          give_up-InOrder Keys.ota_error (codes "Error ota size = 0") esp_ok p (stage p.transfer) h)
    | inr some_byte ↦ rw some_byte (start-InOrder p.transfer size p h)
  ]
  step-InOrder cancel p h =
      give_up-InOrder Keys.ota_cancel (codes "Cancel command") esp_ok p (stage p.transfer) h
  step-InOrder reported_error p h =
      give_up-InOrder Keys.ota_error (codes "Error command") esp_ok p (stage p.transfer) h
  step-InOrder (decide rollback) p h =
      decided-InOrder p (be.rollback_ota_ws rollback p.backend.inner) h
  step-InOrder restart p h = tt
  step-InOrder (chunk len buf) p h = take_chunk-InOrder p.transfer len buf p refl h
  step-InOrder nothing p h = h
