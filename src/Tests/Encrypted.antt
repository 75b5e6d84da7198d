-- ===== src/Tests/Encrypted.antt =====
-- The same file, sent from the page to the flash writer for encrypted images, with a library that takes
-- every chunk as it is.
use ota_ws_update.Base.{
  ℕ, ◌+◌, ◌*◌, ◌-◌, ◌≤◌, ◌≡◌, refl, false, some, List, [], ◌∷◌, Bytes, arith, length, take,
}
use ota_ws_update.Esp.{esp_ok, done}
use ota_ws_update.Text.Decimal.{print_int}
use ota_ws_update.Http.Session
use ota_ws_update.Http.Session.{Session}
use ota_ws_update.Http.Handler.{ota_chunk_size}
use ota_ws_update.Http.Upload.{upload}
use ota_ws_update.EncryptedImg.{EncryptedImg}
use ota_ws_update.PreEncrypted.{initial}
use ota_ws_update.PreEncrypted.Library.{
  esp_encrypted_img_decrypt_end, esp_encrypted_img_decrypt_data, pointee,
}
use ota_ws_update.PreEncrypted.Writer.{
  write_ota_ws, end_ota_ws, pre_encrypted, decrypted, check_header, flash,
}
use ota_ws_update.PreEncrypted.Target.{bytes_of}
use ota_ws_update.PreEncrypted.Image.{decrypted_image, context_after, update-decrypted_image}
use ota_ws_update.Client.{start_cancel}
use ota_ws_update.Client.Pieces.{parts}
use ota_ws_update.Client.World.{World, Run, here}
use ota_ws_update.Client.Ready.{IsReady}
use ota_ws_update.Stack.Page.{updated, encrypted_page_update}
use ota_ws_update.Tests.Chip.{state_of, chip, chip_laws, empty_chip}
use ota_ws_update.Tests.Json.{reader, reader_laws}
use ota_ws_update.Tests.Page.{file, page, tokenizer}
use ota_ws_update.Tests.PreEncrypted.{State, copying, copying_laws, started, start_runs}

abbrev library : EncryptedImg
library = copying esp_ok

abbrev pieces : List Bytes
pieces = take 16 file ∷ parts 20 16 file

abbrev finished : State
finished =
    state_of started
      (upload (pre_encrypted chip library false []) (take 16 file) (parts 20 16 file) started)

finished_runs :
    upload (pre_encrypted chip library false []) (take 16 file) (parts 20 16 file) started
    ≡ done esp_ok finished
unfolding upload write_ota_ws end_ota_ws parts esp_encrypted_img_decrypt_data
    esp_encrypted_img_decrypt_end decrypted pointee check_header flash
finished_runs = refl

update-decrypted_image_example :
    (ctx : ℕ) × (library.decrypt_start [] 0 ≡ some ctx)
    × (chip.esp_ota_get_boot_partition finished.dev ≡ some 1)
    × (chip_laws.contents 1 finished.dev ≡ decrypted_image library ctx pieces)
    × (library.decrypt_end (context_after library ctx pieces) ≡ esp_ok)
update-decrypted_image_example =
    update-decrypted_image chip chip_laws library (copying_laws esp_ok) false [] 1 (take 16 file)
      (parts 20 16 file) (initial empty_chip) started finished (λ h d. refl) refl start_runs
      finished_runs

-- The chunks as they are, for this library.
whole_file : decrypted_image library 7 pieces ≡ file
unfolding bytes_of parts
whole_file = refl

abbrev idle : Session State
idle = Session.initial (initial empty_chip)

ready :
    IsReady
      (pre_encrypted chip library false [])
      tokenizer
      20
      file
      (initial empty_chip)
      started
      finished
unfolding ota_chunk_size print_int
ready = record {
  some_chunk = omega arith;
  chunk_fits = omega arith;
  some_byte = omega arith;
  file_fits = omega arith;
  found = refl;
  starts = start_runs;
  takes = finished_runs;
}

abbrev clicked : World State
clicked =
    let (page', frames) = start_cancel reader page in
    record { page = page'; frames = frames; session = idle }

encrypted_page_update_example :
    let n = ota_chunk_size 20 in
    let sent = take n file ∷ parts 20 n file in
    (0 ≤ 2 * length (parts 20 n file) + 5)
    × Run
        (pre_encrypted chip library false [])
        tokenizer
        20
        reader
        clicked
        (2 * length (parts 20 n file) + 5 - 0)
        (updated n page idle finished)
    × (chip.esp_ota_get_boot_partition finished.dev ≡ some 1)
    × (ctx : ℕ) × (library.decrypt_start [] 0 ≡ some ctx)
    × (chip_laws.contents 1 finished.dev ≡ decrypted_image library ctx sent)
    × (library.decrypt_end (context_after library ctx sent) ≡ esp_ok)
encrypted_page_update_example =
    encrypted_page_update chip chip_laws library (copying_laws esp_ok) false [] tokenizer 20 reader
      reader_laws 1 page file idle started finished 0 clicked (λ h d. refl) refl refl refl ready
      refl here
