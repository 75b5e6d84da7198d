-- ===== src/Tests/Update.antt =====
-- An update of eight bytes in two chunks, and the texts and numbers of its messages.
use ota_ws_update.Base.{◌≡◌, ◌<◌, refl, false, true, some, [], ◌∷◌, ◌++◌, codes, arith}
use ota_ws_update.Word.{u32_mod}
use ota_ws_update.Text.{atoi}
use ota_ws_update.Esp.{esp_ok, done}
use ota_ws_update.Plain.{EspOta, initial, start_ota_ws, write_ota_ws, end_ota_ws, plain}
use ota_ws_update.Plain.Image.{concat, update-image}
use ota_ws_update.Http.Session
use ota_ws_update.Http.Session.{Session}
use ota_ws_update.Http.Handler.{ota_chunk_size, serve}
use ota_ws_update.Http.Message.{first_chunk_message, set_chunk_size_message}
use ota_ws_update.Http.Upload.{chunk_requests, upload, replies}
use ota_ws_update.Http.Upload.Whole.{serve-update}
use ota_ws_update.Stack.{plain_update}
use ota_ws_update.Tests.Chip.{Chip, chip, empty_chip, chip_laws}
use ota_ws_update.Tests.Frames.{
  size_request, text_request-IsTextFrame, size_parse, size_parsed, first_chunk, second_chunk,
}

abbrev idle : Session (EspOta Chip)
idle = Session.initial (initial empty_chip)

abbrev begun : EspOta Chip
begun = record (initial empty_chip) { update_partition = some 1; update_handle = 1 }

abbrev finished : EspOta Chip
finished = record {
  update_partition = some 1;
  image_header_was_checked = true;
  update_handle = 1;
  dev = record { boot = 1; image = first_chunk ++ second_chunk };
}

start_runs : start_ota_ws chip false (initial empty_chip) ≡ done esp_ok begun
unfolding start_ota_ws
start_runs = refl

upload_runs : upload (plain chip false) first_chunk (second_chunk ∷ []) begun ≡ done esp_ok finished
unfolding upload write_ota_ws end_ota_ws
upload_runs = refl

size_value : 8 ≡ atoi (codes "8")
unfolding atoi
size_value = refl

size_fits : atoi (codes "8") < u32_mod
unfolding atoi
size_fits = omega arith

update-image_example :
    (chip.esp_ota_get_boot_partition finished.dev ≡ some 1)
    × (chip_laws.contents 1 finished.dev ≡ first_chunk ++ (second_chunk ++ []))
update-image_example =
    update-image chip chip_laws false 1 first_chunk (second_chunk ∷ []) (initial empty_chip) begun
      finished refl start_runs upload_runs

serve-update_example :
    serve
      (plain chip false)
      size_parse
      4100
      (size_request ∷ chunk_requests (first_chunk ∷ second_chunk ∷ []))
      idle
    ≡ done (esp_ok ∷ esp_ok ∷ esp_ok ∷ []) (record idle {
      backend = finished;
      sent =
          replies 0 first_chunk
            (second_chunk ∷ [])
            (first_chunk_message 0 ∷ set_chunk_size_message (ota_chunk_size 4100) ∷ []);
    })
serve-update_example =
    serve-update (plain chip false) size_parse 4100 size_request first_chunk (second_chunk ∷ [])
      idle begun finished (codes "8") (text_request-IsTextFrame size_request.payload) refl
      (λ s. size_parsed s) (refl, (refl, tt)) size_value size_fits start_runs upload_runs

plain_update_example :
    (w' : Session (EspOta Chip)) × (serve
        (plain chip false)
        size_parse
        4100
        (size_request ∷ chunk_requests (first_chunk ∷ second_chunk ∷ []))
        idle
      ≡ done (esp_ok ∷ esp_ok ∷ esp_ok ∷ []) w')
    × (chip.esp_ota_get_boot_partition w'.backend.dev ≡ some 1)
    × (chip_laws.contents 1 w'.backend.dev ≡ concat (first_chunk ∷ second_chunk ∷ []))
plain_update_example =
    plain_update chip chip_laws false size_parse 4100 1 size_request first_chunk (second_chunk ∷ [])
      idle begun finished (codes "8") (text_request-IsTextFrame size_request.payload) refl
      (λ s. size_parsed s) (refl, (refl, tt)) size_value size_fits refl start_runs upload_runs
