-- ===== src/Tests/Chip.antt =====
-- A device with two partitions, one of which the program runs from.
use ota_ws_update.Base.{ℕ, ◌≡◌, refl, true, arith, ◌++◌, [], Option, none, some, Bytes}
use ota_ws_update.Esp.{is_err, EspErr, esp_ok, esp_err_invalid_arg, Outcome, done, reboot, crash}
use ota_ws_update.Device.{handle, pending_verify, OtaApi, OtaLaws, BootLaws}

-- The partition to boot from, and what partition 1 holds.
pub record Chip : Type 0 where
  pub boot : ℕ
  pub image : Bytes

abbrev write : Option Bytes → Chip → EspErr × Chip
write none d = (esp_err_invalid_arg, d)
write (some bytes) d = (esp_ok, record d { image = d.image ++ bytes })

abbrev set_boot : Option ℕ → Chip → EspErr × Chip
set_boot none d = (esp_err_invalid_arg, d)
set_boot (some p) d = (esp_ok, record d { boot = p })

-- The handle of an update is its partition.
abbrev pub chip : OtaApi
chip = record {
  Dev = Chip;
  esp_ota_get_boot_partition = λ d. some d.boot;
  esp_ota_get_running_partition = λ d. some 0;
  esp_ota_get_next_update_partition = λ d. some 1;
  esp_ota_begin = λ p d. (handle p, record d { image = [] });
  esp_ota_write = λ h bytes d. write bytes d;
  esp_ota_end = λ h d. (esp_ok, d);
  esp_ota_set_boot_partition = set_boot;
  esp_ota_abort = λ h d. (esp_ok, d);
  esp_ota_get_state_partition = λ p d. (esp_ok, pending_verify);
  esp_ota_mark_app_valid_cancel_rollback = λ d. (esp_ok, d);
  esp_ota_mark_app_invalid_rollback_and_reboot = λ d. (none, record d { boot = 0 });
  sizeof_esp_image_header_t = 2;
  sizeof_esp_image_segment_header_t = 1;
  sizeof_esp_app_desc_t = 1;
}

abbrev pub empty_chip : Chip
empty_chip = record { boot = 0; image = [] }

abbrev pub chip_laws : OtaLaws chip
chip_laws = record {
  target = λ h d. some h;
  contents = λ p d. d.image;
  begin_erases = λ p h d d' e. ground arith;
  write_appends = λ p h bytes d d' t e. ground arith;
  end_keeps = λ p h d d' t e. ground arith;
  set_boot_selects = λ p d d' e. ground arith;
}

set_boot_refused :
    (p : Option ℕ) (d : Chip)
    → is_err (set_boot p d).0 ≡ true
    → chip.esp_ota_get_boot_partition (set_boot p d).1 ≡ chip.esp_ota_get_boot_partition d
set_boot_refused none d h = refl
set_boot_refused (some p) d h = cc

write_keeps_boot :
    (bytes : Option Bytes) (d : Chip)
    → chip.esp_ota_get_boot_partition (write bytes d).1 ≡ chip.esp_ota_get_boot_partition d
write_keeps_boot none d = refl
write_keeps_boot (some bytes) d = refl

pub chip-BootLaws : BootLaws chip chip_laws
chip-BootLaws = record {
  begin_keeps_boot = λ p d. refl;
  write_keeps_boot = λ h bytes d. write_keeps_boot bytes d;
  end_keeps_boot = λ h d. refl;
  abort_keeps_boot = λ h d. refl;
  set_boot_refused = set_boot_refused;
  write_null = λ h d. refl;
  valid_keeps_boot = λ d. refl;
  valid_keeps_update = λ h p d. (refl, refl);
  invalid_keeps_boot = λ err d d' run. ground arith;
  invalid_keeps_update = λ h p err d d' run. ground arith;
}

-- The state that a call returns in, or the one given.
abbrev pub state_of : {S A : Type 0} → S → Outcome S A → S
state_of s (done a s') = s'
state_of s (reboot s') = s
state_of s (crash f) = s
