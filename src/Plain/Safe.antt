-- ===== src/Plain/Safe.antt =====
-- The plain flash writer fulfils the contract that the handler relies on.
use ota_ws_update.Base.{
  ℕ, ◌||◌, take, ◌≤◌, ◌≡◌, Bool, true, Option, none, some, arith, Bytes, ltb, if◌then◌else◌, length,
}
use ota_ws_update.Esp.{EspErr, esp_ok, esp_fail, is_err, done, Outcome, null_dereference, crash}
use ota_ws_update.Device.{OtaApi, prefix_size}
use ota_ws_update.Backend.{Ends, Holds, Keeps}
use ota_ws_update.Plain.{
  EspOta, start_ota_ws, write_ota_ws, end_ota_ws, abort_ota_ws, check_ota_ws_rollback_enable,
  rollback_ota_ws, plain,
}

module _ (api : OtaApi) (rollback_enable : Bool) where
  start_safe :
      (p : ℕ) (s : EspOta api.Dev)
      → api.esp_ota_get_next_update_partition s.dev ≡ some p
      → Ends ⊥ (λ _ _. Unit {0}) (start_ota_ws api rollback_enable s)
  unfolding start_ota_ws
  start_safe p s e = ground arith

  write_safe :
      (n : ℕ) (buf : Option Bytes) (s : EspOta api.Dev)
      → Holds buf n
      → Ends ⊥ (λ _ _. Unit {0}) (write_ota_ws api rollback_enable n buf s)
  unfolding write_ota_ws
  write_safe n none s h = ground arith
  write_safe n (some buf) s h = ground arith

  end_safe : (s : EspOta api.Dev) → Ends ⊥ (λ _ _. Unit {0}) (end_ota_ws api rollback_enable s)
  unfolding end_ota_ws
  end_safe s = ground arith

  rollback_safe :
      (rollback : Bool) (s : EspOta api.Dev)
      → Ends ⊥ (λ _ _. Unit {0}) (rollback_ota_ws api rollback_enable rollback s)
  unfolding rollback_ota_ws
  rollback_safe rollback s = ground arith

  -- On a device that always has a partition for the next update, no call of the plain flash writer
  -- has undefined behaviour, in any state, if `write_ota_ws` is given a buffer that holds the bytes
  -- announced, or NULL and no byte.
  pub plain-Keeps :
      ((d : api.Dev) → (p : ℕ) × (api.esp_ota_get_next_update_partition d ≡ some p))
      → Keeps ⊥ (plain api rollback_enable) (λ _. Unit {0})
  unfolding abort_ota_ws check_ota_ws_rollback_enable
  plain-Keeps next = record {
    start_keeps = λ s _. start_safe (next s.dev).0 s (next s.dev).1;
    write_keeps = λ n buf s _ h. write_safe n buf s h;
    end_keeps = λ s _. end_safe s;
    abort_keeps = λ s _. tt;
    check_keeps = λ s _. tt;
    rollback_keeps = λ r s _. rollback_safe r s;
  }

  -- Without such a partition `start_ota_ws` reads through NULL.
  pub start_ota_ws-no_partition :
      (configured running : ℕ) (s : EspOta api.Dev)
      → api.esp_ota_get_boot_partition s.dev ≡ some configured
      → api.esp_ota_get_running_partition s.dev ≡ some running
      → api.esp_ota_get_next_update_partition s.dev ≡ none
      → start_ota_ws api rollback_enable s ≡ crash null_dereference
  unfolding start_ota_ws
  start_ota_ws-no_partition configured running s b r n = ground arith

  -- The chunk is handed to the device, and any error becomes ESP_FAIL.
  abbrev pub sent_on : ℕ → Bytes → EspOta api.Dev → Outcome (EspOta api.Dev) EspErr
  sent_on n buf s =
      let r = api.esp_ota_write s.update_handle (some (take n buf)) s.dev in
      done (if is_err r.0 then esp_fail else esp_ok)
        (record s { image_header_was_checked = true; dev = r.1 })

  -- While the header is unchecked, a chunk that does not exceed the three headers is refused, and
  -- neither the device nor a static variable is touched; a longer one passes the check, and every
  -- chunk goes to the device as it is once the check is passed.
  pub write_ota_ws-header :
      (n : ℕ) (buf : Bytes) (s : EspOta api.Dev)
      → n ≤ length buf
      → write_ota_ws api rollback_enable n (some buf) s ≡ (
          if s.image_header_was_checked || ltb (prefix_size api) n
          then sent_on n buf s
          else done esp_fail s)
  unfolding write_ota_ws
  write_ota_ws-header n buf s h = ground arith
