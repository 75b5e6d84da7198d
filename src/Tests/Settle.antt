-- ===== src/Tests/Settle.antt =====
-- A device that refuses every write.
use ota_ws_update.Base.{ℕ, refl, false, arith, ◌≤◌, ◌+◌, ◌*◌, length}
use ota_ws_update.Text.Decimal.{print_int}
use ota_ws_update.Device.{OtaApi}
use ota_ws_update.Esp.{esp_fail}
use ota_ws_update.Plain.{EspOta, initial, plain}
use ota_ws_update.Plain.Returns.{plain-Returns}
use ota_ws_update.Http.Session
use ota_ws_update.Http.Session.{Session}
use ota_ws_update.Http.Handler.{ota_chunk_size}
use ota_ws_update.Client.{start_cancel}
use ota_ws_update.Client.Pieces.{parts}
use ota_ws_update.Client.World.{World, Run, here}
use ota_ws_update.Client.Settle.{IsSendable, IsSettled}
use ota_ws_update.Client.Settle.Ends.{start_cancel-settles}
use ota_ws_update.Tests.Chip.{Chip, chip, empty_chip}
use ota_ws_update.Tests.Json.{reader, reader_laws}
use ota_ws_update.Tests.Page.{file, page, tokenizer}

abbrev worn_out : OtaApi
worn_out = record chip { esp_ota_write = λ h bytes d. (esp_fail, d) }

abbrev idle : Session (EspOta Chip)
idle = Session.initial (initial empty_chip)

abbrev clicked : World (EspOta Chip)
clicked =
    let (page', frames) = start_cancel reader page in
    record { page = page'; frames = frames; session = idle }

pub sendable : IsSendable tokenizer 20 file
unfolding ota_chunk_size print_int
sendable = record {
  some_chunk = omega arith;
  chunk_fits = omega arith;
  some_byte = omega arith;
  file_fits = omega arith;
  found = refl;
}

start_cancel-settles_example :
    (j : ℕ) × (U : World (EspOta Chip)) × Run (plain worn_out false) tokenizer 20 reader clicked j U
    × (0 + j ≤ 2 * length (parts 20 (ota_chunk_size 20) file) + 5)
    × IsSettled (plain worn_out false) (λ _. Unit {0}) 0 U
start_cancel-settles_example =
    start_cancel-settles (plain worn_out false) tokenizer 20 reader reader_laws (λ _. Unit)
      (plain-Returns worn_out false (λ d. (1, refl))) page file idle 0 clicked refl refl refl tt
      sendable here
