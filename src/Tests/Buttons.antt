-- ===== src/Tests/Buttons.antt =====
-- The page's buttons and the device with two partitions.
use ota_ws_update.Base.{
  none, ◌≡◌, refl, true, some, [], ◌∷◌, Bytes, codes, length, ◌==◌, if◌then◌else◌,
}
use ota_ws_update.Esp.{esp_ok, done}
use ota_ws_update.Jsmn.{JsmnParse}
use ota_ws_update.Http.Keys
use ota_ws_update.Http.Message.{error_message}
use ota_ws_update.Http.Session
use ota_ws_update.Http.Session.{Session}
use ota_ws_update.Http.Handler.{serve}
use ota_ws_update.Http.Json.Pair.{pair_text, pair_tokens}
use ota_ws_update.Plain.{EspOta, initial, plain, abort_ota_ws}
use ota_ws_update.Client.{Page, number, start_cancel, verify_app, rollback, receive_ws_data}
use ota_ws_update.Stack.Buttons.{start_cancel-cancels, given_up, rollback-decides}
use ota_ws_update.Tests.Chip.{Chip, chip, empty_chip}
use ota_ws_update.Tests.Tokens.{knows}
use ota_ws_update.Tests.Json.{reader, reader_laws}

-- A tokenizer that knows the command with this name and this string.
abbrev knows_command : Bytes → Bytes → JsmnParse
knows_command name value =
    let between = codes "\",\"value\":\"" in
    knows (pair_tokens name between value (codes "\"}"))
      (length (pair_text name between value (codes "\"}")))

abbrev page : Page
page = record { ota_data = some (7 ∷ 7 ∷ []); ota_set_chunk_size = number 16; ota_started = 1 }

-- An update runs, and one byte of two has arrived.
abbrev busy : Session (EspOta Chip)
busy =
    record (Session.initial
      (record (initial empty_chip) { update_partition = some 1; update_handle = 1 })) {
        ota_size = 2;
        ota_start_chunk = 1;
        ota_started = 1;
      }

start_cancel-cancels_example :
    let (clicked, frames) = start_cancel reader page in
    (clicked ≡ record page { ota_started = 0 })
    × (serve (plain chip true) (knows_command Keys.ota_cancel (codes "Cancel")) 4096 frames busy
        ≡ done (esp_ok ∷ []) (record busy {
          ota_size = 0;
          ota_start_chunk = 0;
          ota_started = 0;
          sent = error_message Keys.ota_cancel (codes "Cancel command") ∷ [];
        }))
    × (receive_ws_data reader (error_message Keys.ota_cancel (codes "Cancel command")) clicked
        ≡ (clicked, []))
unfolding abort_ota_ws
start_cancel-cancels_example =
    start_cancel-cancels (plain chip true) (knows_command Keys.ota_cancel (codes "Cancel")) 4096
      reader reader_laws page busy esp_ok busy.backend refl refl refl

-- Both decisions about an image.
abbrev decisions : JsmnParse
decisions js n =
    if length js == 45
    then knows_command Keys.ota_process_rollback (codes "false") js n
    else knows_command Keys.ota_process_rollback (codes "true") js n

abbrev idle : Session (EspOta Chip)
idle = Session.initial (initial empty_chip)

rollback-decides_example :
    (serve (plain chip true) decisions 4096 (verify_app reader) idle ≡ done (esp_ok ∷ []) idle)
    × (serve (plain chip true) decisions 4096 (rollback reader) idle
        ≡ given_up idle (none, empty_chip))
rollback-decides_example = rollback-decides chip decisions 4096 reader reader_laws idle refl refl
