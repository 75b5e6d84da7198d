-- ===== src/Stack/Boot/Steps.antt =====
-- A step of the protocol with a flash writer, and the partition that the device boots from.
use ota_ws_update.Base.{
  ℕ, ◌≡◌, refl, inl, inr, Bool, true, false, Option, Bytes, ◌==◌, Bool-cases, codes,
}
use ota_ws_update.Word.{add32}
use ota_ws_update.Esp.{EspErr, esp_ok, Outcome, done, reboot, crash, bind}
use ota_ws_update.Backend.{Backend}
use ota_ws_update.Http.Keys
use ota_ws_update.Http.Protocol.{
  Transfer, no_transfer, receiving, Event, connected, failed, unreadable, announce, cancel,
  reported_error, decide, restart, chunk, nothing, answered, call, say, begin, advance, take_chunk,
  greet, step,
}
use ota_ws_update.Http.Calls.{started, wrote, logged, unrecorded}
use ota_ws_update.Http.Calls.Steps.{recorded-Ends, unrecorded-Ends}
use ota_ws_update.Stack.Boot.{BootWriter, S, Holding}
use ota_ws_update.Stack.Boot.Answers.{
  P, boots_of, Behind, Good, called, same_boot, give_up-Good, begin-Good, advance-Good,
  written-Holding, started-Holding,
}

module _ (be : Backend) (writer : BootWriter be) (chunk_config : ℕ) where
  abbrev Q : Type 0
  Q = P be writer chunk_config

  abbrev boots_at : Q → Option ℕ
  boots_at = boots_of be writer chunk_config

  abbrev Kept : {A : Type 0} → Transfer → Option ℕ → Outcome Q A → Type 0
  Kept = Good be writer chunk_config

  take_chunk-Good :
      (t : Transfer) (len : ℕ) (buf : Option Bytes) (p : Q)
      → p.transfer ≡ t
      → Holding be writer t p.backend
      → Kept t (boots_at p) (take_chunk (logged be) chunk_config t len buf p)
  unfolding take_chunk call
  take_chunk-Good no_transfer len buf p e h = (rw e tt, refl)
  take_chunk-Good (receiving size start) len buf p e h =
      recorded-Ends (Behind be writer chunk_config (receiving size start) (boots_at p))
        (wrote len buf) (be.write_ota_ws len buf p.backend.inner) p
        (advance (logged be) chunk_config size (add32 start len))
        (λ r b run.
          advance-Good be writer chunk_config size start (add32 start len) (boots_at p) r
            (called be writer chunk_config p (wrote len buf r) b)
            (writer.write_boot len buf p.backend.inner b r run)
            (written-Holding be writer chunk_config size start len buf r p b h run))

  announce-Good :
      (size : ℕ) (p : Q)
      → Kept p.transfer
          (boots_at p)
          (bind (call (logged be).start_ota_ws p) (begin (logged be) chunk_config size))
  unfolding call
  announce-Good size p =
      recorded-Ends (Behind be writer chunk_config p.transfer (boots_at p)) started
        (be.start_ota_ws p.backend.inner) p (begin (logged be) chunk_config size)
        (λ r b run.
          begin-Good be writer chunk_config size p.transfer (boots_at p) r
            (called be writer chunk_config p (started r) b)
            (writer.start_boot p.backend.inner b r run)
            (started-Holding be writer chunk_config size r p b run))

  greet-Good :
      (pending : Bool) (t : Transfer) (q : Option ℕ) (p : Q)
      → Holding be writer p.transfer p.backend
      → boots_at p ≡ q
      → Kept t q (greet (logged be) chunk_config pending p)
  unfolding greet say
  greet-Good true t q p h same = (h, same_boot be writer chunk_config t q p.backend same)
  greet-Good false t q p h same = (h, same_boot be writer chunk_config t q p.backend same)

  -- The state behind a call that is not recorded.
  abbrev asked : Q → be.State → Q
  asked p b = record p { backend = record { inner = b; calls = p.backend.calls } }

  checked-Holding :
      (t : Transfer) (s : S be writer) (b : be.State) (pending : Bool)
      → be.check_ota_ws_rollback_enable s.inner ≡ done pending b
      → Holding be writer t s
      → Holding be writer t (record { inner = b; calls = s.calls })
  checked-Holding no_transfer s b pending run h = tt
  checked-Holding (receiving size k) s b pending run h =
      (writer.check_held s.calls s.inner b pending run h.0, h.1)

  decided-Holding :
      (t : Transfer) (s : S be writer) (b : be.State) (rollback : Bool) (ret : EspErr)
      → be.rollback_ota_ws rollback s.inner ≡ done ret b
      → Holding be writer t s
      → Holding be writer t (record { inner = b; calls = s.calls })
  decided-Holding no_transfer s b rollback ret run h = tt
  decided-Holding (receiving size k) s b rollback ret run h =
      (writer.rollback_held rollback s.calls s.inner b ret run h.0, h.1)

  connected-Good :
      (p : Q)
      → Holding be writer p.transfer p.backend
      → Kept p.transfer (boots_at p) (step (logged be) chunk_config connected p)
  unfolding step call
  connected-Good p h =
      unrecorded-Ends (Behind be writer chunk_config p.transfer (boots_at p))
        (be.check_ota_ws_rollback_enable p.backend.inner) p (greet (logged be) chunk_config)
        (λ pending b run.
          greet-Good pending p.transfer (boots_at p) (asked p b)
            (checked-Holding p.transfer p.backend b pending run h)
            (writer.check_boot p.backend.inner b pending run))

  decided-Good :
      (p : Q) (rollback : Bool) (o : Outcome be.State EspErr)
      → be.rollback_ota_ws rollback p.backend.inner ≡ o
      → Holding be writer p.transfer p.backend
      → Kept p.transfer (boots_at p) (answered p (unrecorded o p.backend.calls))
  unfolding answered unrecorded
  decided-Good p rollback (done ret b) run h = (
    decided-Holding p.transfer p.backend b rollback ret run h,
    same_boot be writer chunk_config p.transfer (boots_at p) (asked p b).backend
        (writer.rollback_boot rollback p.backend.inner b ret run),
  )
  decided-Good p rollback (reboot b) run h = tt
  decided-Good p rollback (crash f) run h = tt

  -- Every step of the protocol keeps the transfer in step with what the flash writer holds, and leaves
  -- the partition to boot from, unless it ends an update with enough bytes.
  pub step-Good :
      (e : Event) (p : Q)
      → Holding be writer p.transfer p.backend
      → Kept p.transfer (boots_at p) (step (logged be) chunk_config e p)
  unfolding step call
  step-Good connected p h = connected-Good p h
  step-Good (failed msg ret) p h =
      give_up-Good be writer chunk_config p.transfer (boots_at p) Keys.ota_error msg ret p refl
  step-Good (unreadable f) p h = tt
  step-Good (announce size) p h = elim (Bool-cases (size == 0)) [
    | inl zero ↦ rw zero (
        give_up-Good be writer chunk_config p.transfer (boots_at p) Keys.ota_error
          (codes "Error ota size = 0") esp_ok p refl)
    | inr some_byte ↦ rw some_byte (announce-Good size p)
  ]
  step-Good cancel p h =
      give_up-Good be writer chunk_config p.transfer (boots_at p) Keys.ota_cancel
        (codes "Cancel command") esp_ok p refl
  step-Good reported_error p h =
      give_up-Good be writer chunk_config p.transfer (boots_at p) Keys.ota_error
        (codes "Error command") esp_ok p refl
  step-Good (decide rollback) p h =
      decided-Good p rollback (be.rollback_ota_ws rollback p.backend.inner) refl h
  step-Good restart p h = tt
  step-Good (chunk len buf) p h = take_chunk-Good p.transfer len buf p refl h
  step-Good nothing p h =
      (h, same_boot be writer chunk_config p.transfer (boots_at p) p.backend refl)
