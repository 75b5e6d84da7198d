-- ===== src/Tests/Page.antt =====
-- A file of twenty bytes, sent from the page in parts of sixteen bytes.
use ota_ws_update.Base.{
  ◌+◌, ◌*◌, ◌-◌, ◌≤◌, ◌≡◌, refl, true, false, some, [], ◌∷◌, ◌++◌, Bytes, arith, codes, length,
  replicate,
}
use ota_ws_update.Esp.{esp_ok, done}
use ota_ws_update.Jsmn.{JsmnParse}
use ota_ws_update.Text.Decimal.{print_int}
use ota_ws_update.Http.Keys
use ota_ws_update.Http.Session
use ota_ws_update.Http.Session.{Session}
use ota_ws_update.Http.Json.{num_tokens, json_to_str_parm}
use ota_ws_update.Http.Json.Pair.{pair_text, pair_tokens, json_to_str_parm-pair}
use ota_ws_update.Http.Handler.{ota_chunk_size}
use ota_ws_update.Http.Upload.{upload}
use ota_ws_update.Plain.{EspOta, initial, plain, start_ota_ws, write_ota_ws, end_ota_ws}
use ota_ws_update.Client.Bounds.{chunk_asked-bounds}
use ota_ws_update.Base.{◌<◌, ◌%◌, ◌⊎◌}
use ota_ws_update.Client.{chunk_asked, Page, number, start_cancel}
use ota_ws_update.Client.Pieces.{parts}
use ota_ws_update.Client.World.{World, Run, here}
use ota_ws_update.Client.Ready.{IsReady}
use ota_ws_update.Client.Complete.{start_cancel-completes}
use ota_ws_update.Stack.Page.{updated, plain_page_update}
use ota_ws_update.Tests.Chip.{Chip, chip, chip_laws, empty_chip}
use ota_ws_update.Tests.Tokens.{knows}
use ota_ws_update.Tests.Json.{reader, reader_laws}

abbrev pub file : Bytes
file = replicate 20 233

abbrev pub digits : Bytes
digits = codes "20"

abbrev pub page : Page
page = record { ota_data = some file; ota_set_chunk_size = number 0; ota_started = 0 }

abbrev pub tokenizer : JsmnParse
tokenizer = knows (pair_tokens Keys.ota_size_start (codes "\",\"value\":") digits (codes "}")) 29

abbrev idle : Session (EspOta Chip)
idle = Session.initial (initial empty_chip)

abbrev begun : EspOta Chip
begun = record (initial empty_chip) { update_partition = some 1; update_handle = 1 }

abbrev finished : EspOta Chip
finished = record {
  update_partition = some 1;
  image_header_was_checked = true;
  update_handle = 1;
  dev = record { boot = 1; image = file };
}

ready : IsReady (plain chip false) tokenizer 20 file (initial empty_chip) begun finished
unfolding ota_chunk_size print_int start_ota_ws upload write_ota_ws end_ota_ws parts
ready = record {
  some_chunk = omega arith;
  chunk_fits = omega arith;
  some_byte = omega arith;
  file_fits = omega arith;
  found = refl;
  starts = refl;
  takes = refl;
}

abbrev clicked : World (EspOta Chip)
clicked =
    let (page', frames) = start_cancel reader page in
    record { page = page'; frames = frames; session = idle }

start_cancel-completes_example :
    (0 ≤ 2 * length (parts 20 (ota_chunk_size 20) file) + 5)
    × Run
        (plain chip false)
        tokenizer
        20
        reader
        clicked
        (2 * length (parts 20 (ota_chunk_size 20) file) + 5 - 0)
        (updated (ota_chunk_size 20) page idle finished)
start_cancel-completes_example =
    start_cancel-completes (plain chip false) tokenizer 20 reader reader_laws page file idle begun
      finished 0 clicked refl refl refl ready here

plain_page_update_example :
    (0 ≤ 2 * length (parts 20 (ota_chunk_size 20) file) + 5)
    × Run
        (plain chip false)
        tokenizer
        20
        reader
        clicked
        (2 * length (parts 20 (ota_chunk_size 20) file) + 5 - 0)
        (updated (ota_chunk_size 20) page idle finished)
    × (chip.esp_ota_get_boot_partition finished.dev ≡ some 1)
    × (chip_laws.contents 1 finished.dev ≡ file)
plain_page_update_example =
    plain_page_update chip chip_laws false tokenizer 20 reader reader_laws 1 page file idle begun
      finished 0 clicked refl refl refl ready refl here

-- The steps of this update: two for the second part, and five.
two_parts : parts 20 (ota_chunk_size 20) file ≡ replicate 4 233 ∷ []
unfolding parts ota_chunk_size
two_parts = refl

found :
    tokenizer (pair_text Keys.ota_size_start (codes "\",\"value\":") digits (codes "}")) num_tokens
    ≡ record {
      r = 5;
      tokens = pair_tokens Keys.ota_size_start (codes "\",\"value\":") digits (codes "}");
    }
found = refl

json_to_str_parm-pair_example :
    json_to_str_parm tokenizer
      (some (pair_text Keys.ota_size_start (codes "\",\"value\":") digits (codes "}") ++ (0 ∷ [])))
      idle
    ≡ done (record { ret = esp_ok; name = Keys.ota_size_start; value = digits }) idle
json_to_str_parm-pair_example =
    json_to_str_parm-pair Keys.ota_size_start (codes "\",\"value\":") digits (codes "}") tokenizer
      [] idle refl refl refl refl (omega arith) (omega arith) (omega arith) found

abbrev second_part : Bytes
second_part = chunk_asked reader file (number 16) (number (ota_chunk_size 20))

chunk_asked-bounds_example :
    (0 < length second_part)
    × (length second_part ≤ 20)
    × (((length second_part ≡ ota_chunk_size 20) × (length second_part % 16 ≡ 0))
        ⊎ (16 + length second_part ≡ 20))
chunk_asked-bounds_example = chunk_asked-bounds reader 20 16 file (omega arith) (omega arith)
