-- ===== src/Stack/Boot.antt =====
-- The handler of source/ota_ws_update_http.c with a flash writer: when the device comes to boot from
-- another partition. `BootWriter` is what this needs to know of a flash writer.
pub mod Answers
pub mod Steps
pub mod Frames
pub mod PlainImage
pub mod Verified
pub mod EncryptedImage
use ota_ws_update.Base.{ℕ, ◌≤◌, ◌≡◌, ◌⊎◌, ◌%◌, true, Bool, Option, List, ◌∷◌, Bytes}
use ota_ws_update.Word.{u32_mod}
use ota_ws_update.Esp.{EspErr, esp_ok, is_err, done}
use ota_ws_update.Backend.{Backend}
use ota_ws_update.Http.Protocol.{Transfer, no_transfer, receiving}
use ota_ws_update.Http.Calls.{Call, started, wrote, ended, Logged, amount}

-- `boot`: the partition to boot from. `Held`: what the flash writer has behind these calls of an update
-- that goes on. `Whole`: what the device has once the update is ended.
pub record BootWriter (be : Backend) : Type 1 where
  pub boot : be.State → Option ℕ
  pub Held : List Call → be.State → Type 0
  pub Whole : List Call → be.State → Type 0
  pub start_boot :
      (s s1 : be.State) (ret : EspErr) → be.start_ota_ws s ≡ done ret s1 → boot s1 ≡ boot s
  pub start_held :
      (calls : List Call) (s s1 : be.State)
      → be.start_ota_ws s ≡ done esp_ok s1
      → Held (started esp_ok ∷ calls) s1
  pub write_boot :
      (n : ℕ) (buf : Option Bytes) (s s1 : be.State) (ret : EspErr)
      → be.write_ota_ws n buf s ≡ done ret s1
      → boot s1 ≡ boot s
  pub write_held :
      (n : ℕ) (buf : Option Bytes) (calls : List Call) (s s1 : be.State)
      → Held calls s
      → be.write_ota_ws n buf s ≡ done esp_ok s1
      → Held (wrote n buf esp_ok ∷ calls) s1
  pub end_boot :
      (calls : List Call) (s s1 : be.State) (ret : EspErr)
      → Held calls s
      → is_err ret ≡ true
      → be.end_ota_ws s ≡ done ret s1
      → boot s1 ≡ boot s
  pub end_whole :
      (calls : List Call) (s s1 : be.State)
      → Held calls s
      → be.end_ota_ws s ≡ done esp_ok s1
      → Whole (ended esp_ok ∷ calls) s1
  pub abort_boot :
      (s s1 : be.State) (ret : EspErr) → be.abort_ota_ws s ≡ done ret s1 → boot s1 ≡ boot s
  pub check_boot :
      (s s1 : be.State) (pending : Bool)
      → be.check_ota_ws_rollback_enable s ≡ done pending s1
      → boot s1 ≡ boot s
  pub check_held :
      (calls : List Call) (s s1 : be.State) (pending : Bool)
      → be.check_ota_ws_rollback_enable s ≡ done pending s1
      → Held calls s
      → Held calls s1
  pub rollback_boot :
      (rollback : Bool) (s s1 : be.State) (ret : EspErr)
      → be.rollback_ota_ws rollback s ≡ done ret s1
      → boot s1 ≡ boot s
  pub rollback_held :
      (rollback : Bool) (calls : List Call) (s s1 : be.State) (ret : EspErr)
      → be.rollback_ota_ws rollback s ≡ done ret s1
      → Held calls s
      → Held calls s1

module _ (be : Backend) (writer : BootWriter be) where
  abbrev pub S : Type 0
  S = Logged be.State

  abbrev pub boots : S → Option ℕ
  boots s = writer.boot s.inner

  -- The update is ended, with no less than was announced.
  pub record IsWhole (size : ℕ) (s : S) : Type 0 where
    pub whole : writer.Whole s.calls s.inner
    pub enough : size ≤ amount s.calls

  -- During a transfer the offset counts what was taken.
  abbrev pub Holding : Transfer → S → Type 0
  Holding no_transfer s = Unit {0}
  Holding (receiving size k) s = writer.Held s.calls s.inner × (k ≡ amount s.calls % u32_mod)

  -- Where a frame has come during the transfer t, and the device booted from q before.
  abbrev pub Booted : Transfer → Option ℕ → S → Type 0
  Booted no_transfer q s = boots s ≡ q
  Booted (receiving size k) q s = (boots s ≡ q) ⊎ IsWhole size s
