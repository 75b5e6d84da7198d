-- ===== src/Tests/Outcome.antt =====
-- An update from the page of a device that refuses to end it.
use ota_ws_update.Base.{ℕ, ◌+◌, ◌*◌, ◌≤◌, ◌≡◌, ◌⊎◌, refl, false, some, arith, length}
use ota_ws_update.Esp.{esp_fail}
use ota_ws_update.Device.{OtaApi, OtaLaws, BootLaws}
use ota_ws_update.Plain.{EspOta, initial, plain}
use ota_ws_update.Http.Session
use ota_ws_update.Http.Session.{Session}
use ota_ws_update.Http.Handler.{ota_chunk_size}
use ota_ws_update.Client.{start_cancel}
use ota_ws_update.Client.Pieces.{parts}
use ota_ws_update.Client.World.{World, Run, here}
use ota_ws_update.Client.Settle.{IsSettled}
use ota_ws_update.Stack.Outcome.{plain_page_outcome}
use ota_ws_update.Tests.Chip.{Chip, chip, chip_laws, chip-BootLaws, empty_chip}
use ota_ws_update.Tests.Json.{reader, reader_laws}
use ota_ws_update.Tests.Settle.{sendable}
use ota_ws_update.Tests.Page.{file, page, tokenizer}

abbrev strict : OtaApi
strict = record chip { esp_ota_end = λ h d. (esp_fail, d) }

abbrev strict_laws : OtaLaws strict
strict_laws = record {
  target = chip_laws.target;
  contents = chip_laws.contents;
  begin_erases = chip_laws.begin_erases;
  write_appends = chip_laws.write_appends;
  end_keeps = λ p h d d' bound run. ground arith;
  set_boot_selects = chip_laws.set_boot_selects;
}

strict-BootLaws : BootLaws strict strict_laws
strict-BootLaws = record {
  begin_keeps_boot = chip-BootLaws.begin_keeps_boot;
  write_keeps_boot = chip-BootLaws.write_keeps_boot;
  end_keeps_boot = λ h d. refl;
  abort_keeps_boot = chip-BootLaws.abort_keeps_boot;
  set_boot_refused = chip-BootLaws.set_boot_refused;
  write_null = chip-BootLaws.write_null;
  valid_keeps_boot = λ d. refl;
  valid_keeps_update = λ h p d. (refl, refl);
  invalid_keeps_boot = chip-BootLaws.invalid_keeps_boot;
  invalid_keeps_update = chip-BootLaws.invalid_keeps_update;
}

abbrev idle : Session (EspOta Chip)
idle = Session.initial (initial empty_chip)

abbrev clicked : World (EspOta Chip)
clicked =
    let (page', frames) = start_cancel reader page in
    record { page = page'; frames = frames; session = idle }

plain_page_outcome_example :
    (j : ℕ) × (U : World (EspOta Chip)) × Run (plain strict false) tokenizer 20 reader clicked j U
    × (0 + j ≤ 2 * length (parts 20 (ota_chunk_size 20) file) + 5)
    × IsSettled
        (plain strict false)
        (λ s.
          ((strict.esp_ota_get_boot_partition s.dev ≡ some 1)
            × (strict_laws.contents 1 s.dev ≡ file))
          ⊎ (strict.esp_ota_get_boot_partition s.dev
              ≡ strict.esp_ota_get_boot_partition empty_chip))
        0
        U
plain_page_outcome_example =
    plain_page_outcome strict strict_laws strict-BootLaws false tokenizer 20 reader reader_laws 1
      page file idle 0 clicked refl refl refl sendable refl here
