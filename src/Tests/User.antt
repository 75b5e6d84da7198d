-- ===== src/Tests/User.antt =====
-- A user of the page: a file is read, its update is started, cancelled and started again.
use ota_ws_update.Base.{◌≡◌, refl, true, false, some, [], ◌∷◌, ◌++◌, Bytes, arith, replicate}
use ota_ws_update.Esp.{esp_ok}
use ota_ws_update.Backend.{Ends}
use ota_ws_update.Http.Message.{int_pair, next_chunk_message}
use ota_ws_update.Http.Session
use ota_ws_update.Http.Session.{Session}
use ota_ws_update.Http.Invariant.{IsConsistent}
use ota_ws_update.Http.Handler.{ota_ws_handler}
use ota_ws_update.Plain.{EspOta, initial, plain, start_ota_ws, write_ota_ws, abort_ota_ws}
use ota_ws_update.Plain.Safe.{plain-Keeps}
use ota_ws_update.Client.{number, read_ota_file, start_cancel, text_request}
use ota_ws_update.Client.Ready.{size_text}
use ota_ws_update.Client.World.{World}
use ota_ws_update.Client.Acts.{Act, Acts, opened, reads, clicks, none_yet, more}
use ota_ws_update.Client.Safe.{page_safe}
use ota_ws_update.Stack.Race.{restart-stale_part}
use ota_ws_update.Tests.Chip.{state_of, Chip, chip, empty_chip}
use ota_ws_update.Tests.Json.{write_object, reader, reader_laws}
use ota_ws_update.Tests.Known.{page_tokens, page_tokens_laws, page_known}

abbrev file : Bytes
file = replicate 16 233 ++ replicate 5 7

abbrev fresh : World (EspOta Chip)
fresh = opened (initial empty_chip)

abbrev file_read : World (EspOta Chip)
file_read = record fresh {
  page = record { ota_data = some file; ota_set_chunk_size = number 0; ota_started = 0 };
}

abbrev clicked : World (EspOta Chip)
clicked = record fresh {
  page = record { ota_data = some file; ota_set_chunk_size = number 0; ota_started = 1 };
  frames = text_request (size_text 21) ∷ [];
}

acts : Acts (plain chip false) page_tokens 4096 reader fresh clicked
unfolding read_ota_file start_cancel write_object int_pair
acts =
    let first : Act (plain chip false) page_tokens 4096 reader fresh file_read =
      reads file (omega arith) refl in
    let second : Act (plain chip false) page_tokens 4096 reader file_read clicked = clicks refl in
    more (more none_yet first) second

page_safe_example :
    Ends ⊥
      (λ _ w. IsConsistent w × (w.live_bufs ≡ 0) × Unit {0})
      (ota_ws_handler
        (plain chip false)
        page_tokens
        4096
        (text_request (size_text 21))
        (Session.initial (initial empty_chip)))
page_safe_example =
    page_safe page_tokens page_known reader reader_laws (plain chip false) 4096 page_tokens_laws
      (λ _. Unit {0}) (plain-Keeps chip false (λ d. (1, refl))) (initial empty_chip) clicked
      (text_request (size_text 21)) [] tt acts refl

-- The first part of sixteen bytes has been taken.
abbrev busy : Session (EspOta Chip)
busy =
    record (Session.initial (record (initial empty_chip) {
      update_partition = some 1;
      image_header_was_checked = true;
      update_handle = 1;
      dev = record { boot = 0; image = replicate 16 233 };
    })) { ota_size = 21; ota_start_chunk = 16; ota_started = 1; sent = next_chunk_message 16 ∷ [] }

abbrev begun : EspOta Chip
begun = state_of busy.backend (start_ota_ws chip false busy.backend)

abbrev misled : EspOta Chip
misled = state_of begun (write_ota_ws chip false 5 (some (replicate 5 7 ++ (0 ∷ []))) begun)

-- The update that is started again has the end of the file where its start should be.
misled_image : misled.dev.image ≡ replicate 5 7
unfolding start_ota_ws write_ota_ws
misled_image = refl

restart-stale_part_example :
    (V : World (EspOta Chip)) × Acts
      (plain chip false)
      page_tokens
      4096
      reader
      (record {
        page = record { ota_data = some file; ota_set_chunk_size = number 16; ota_started = 1 };
        frames = [];
        session = busy;
      })
      V
    × (V.page.ota_started ≡ 1)
    × (V.session.ota_started ≡ 1)
    × (V.session.ota_size ≡ 21)
    × (V.session.ota_start_chunk ≡ 5)
    × (V.session.backend ≡ misled)
unfolding abort_ota_ws start_ota_ws write_ota_ws
restart-stale_part_example =
    restart-stale_part (plain chip false) page_tokens 4096 reader reader_laws file 16 16 busy esp_ok
      busy.backend begun misled (omega arith) (omega arith) (omega arith) (omega arith) refl
      page_known.cancel (page_known.sizes 21 (omega arith)) refl refl refl
