-- ===== src/Http/Calls.antt =====
-- The order in which source/ota_ws_update_http.c calls the functions of an update: a flash writer with
-- a record of its calls, and what that record may look like.
pub mod Steps
pub mod Order
use ota_ws_update.Base.{
  ◌+◌, ℕ, Bool, Option, none, some, List, [], ◌∷◌, ◌++◌, take, Bytes, if◌then◌else◌, ◌==◌,
}
use ota_ws_update.Word.{add32}
use ota_ws_update.Esp.{EspErr, is_err, Outcome, done, reboot, crash}
use ota_ws_update.Backend.{Backend}
use ota_ws_update.Http.Session.{Session}

-- A call that has returned, with a chunk and the code returned.
pub data Call : Type 0 where
  started ended aborted : EspErr → Call
  wrote : ℕ → Option Bytes → EspErr → Call

-- The flash writer's state, with its calls, the last one first.
pub record Logged (B : Type 0) : Type 0 where
  pub inner : B
  pub calls : List Call

module _ {B : Type 0} where
  unfoldable pub recorded :
      (EspErr → Call) → Outcome B EspErr → List Call → Outcome (Logged B) EspErr
  recorded call (done ret b) calls = done ret (record { inner = b; calls = call ret ∷ calls })
  recorded call (reboot b) calls = reboot (record { inner = b; calls = calls })
  recorded call (crash f) calls = crash f

  -- Asking for the state of the image and deciding on it are no calls of an update.
  unfoldable pub unrecorded : {A : Type 0} → Outcome B A → List Call → Outcome (Logged B) A
  unrecorded (done a b) calls = done a (record { inner = b; calls = calls })
  unrecorded (reboot b) calls = reboot (record { inner = b; calls = calls })
  unrecorded (crash f) calls = crash f

abbrev pub logged : Backend → Backend
logged be = record {
  State = Logged be.State;
  start_ota_ws = λ s. recorded started (be.start_ota_ws s.inner) s.calls;
  write_ota_ws = λ len buf s. recorded (wrote len buf) (be.write_ota_ws len buf s.inner) s.calls;
  end_ota_ws = λ s. recorded ended (be.end_ota_ws s.inner) s.calls;
  abort_ota_ws = λ s. recorded aborted (be.abort_ota_ws s.inner) s.calls;
  check_ota_ws_rollback_enable = λ s. unrecorded (be.check_ota_ws_rollback_enable s.inner) s.calls;
  rollback_ota_ws = λ rollback s. unrecorded (be.rollback_ota_ws rollback s.inner) s.calls;
}

-- `no_update`: no update; `in_update k`: an update that has taken k bytes; `failing`: a call of it has failed.
pub data Stage : Type 0 where
  no_update failing : Stage
  in_update : ℕ → Stage

-- A start may come at any time but behind a failure, a chunk and the end only while an update is on,
-- and behind a failure only an abort. `none` is a call out of order.
unfoldable pub after : Call → Stage → Option Stage
after (started ret) failing = none
after (started ret) no_update = some (if is_err ret then failing else in_update 0)
after (started ret) (in_update k) = some (if is_err ret then failing else in_update 0)
after (wrote n buf ret) (in_update k) = some (if is_err ret then failing else in_update (add32 k n))
after (wrote n buf ret) no_update = none
after (wrote n buf ret) failing = none
after (ended ret) (in_update k) = some (if is_err ret then failing else no_update)
after (ended ret) no_update = none
after (ended ret) failing = none
after (aborted ret) stage = some no_update

abbrev following : Call → Option Stage → Option Stage
following call none = none
following call (some stage) = after call stage

unfoldable pub stage_after : List Call → Option Stage
stage_after [] = some no_update
stage_after (call ∷ earlier) = following call (stage_after earlier)

-- The stage that the handler's static variables stand for.
unfoldable pub stage_of : {B : Type 0} → Session B → Stage
stage_of w = if w.ota_started == 0 then no_update else in_update w.ota_start_chunk

-- The bytes that the flash writer has taken since it was last asked to start.
unfoldable pub taken : List Call → Bytes
taken [] = []
taken (started ret ∷ earlier) = []
taken (wrote n none ret ∷ earlier) = taken earlier
taken (wrote n (some buf) ret ∷ earlier) =
    let before = taken earlier in if is_err ret then before else before ++ take n buf
taken (ended ret ∷ earlier) = taken earlier
taken (aborted ret ∷ earlier) = taken earlier

-- Their number, as the calls announce it.
unfoldable pub amount : List Call → ℕ
amount [] = 0
amount (started ret ∷ earlier) = 0
amount (wrote n buf ret ∷ earlier) =
    let before = amount earlier in if is_err ret then before else before + n
amount (ended ret ∷ earlier) = amount earlier
amount (aborted ret ∷ earlier) = amount earlier
