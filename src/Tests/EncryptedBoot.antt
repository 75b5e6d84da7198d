-- ===== src/Tests/EncryptedBoot.antt =====
-- The chunk with which the device comes to boot from an encrypted image.
use ota_ws_update.Base.{◌≡◌, ◌⊎◌, refl, false, [], ◌∷◌}
use ota_ws_update.Esp.{esp_ok, done}
use ota_ws_update.Word.{add32, sub32, int_ltb}
use ota_ws_update.Text.{c_string, atoi, strncmp_is_zero}
use ota_ws_update.EncryptedImg.{EncryptedImg}
use ota_ws_update.PreEncrypted.{initial}
use ota_ws_update.PreEncrypted.Library.{
  esp_encrypted_img_decrypt_end, esp_encrypted_img_decrypt_data, pointee, set_out, set_out_len,
}
use ota_ws_update.PreEncrypted.Writer.{
  start_ota_ws, write_ota_ws, end_ota_ws, pre_encrypted, decrypted, check_header, flash,
}
use ota_ws_update.Http.Json.{json_to_str_parm, copy_token}
use ota_ws_update.Http.Session
use ota_ws_update.Http.Session.{Session}
use ota_ws_update.Http.Handler.{
  filled, is_key, serve, ota_ws_handler, receive_frame, received, recv_ret, process_frame,
  text_frame, parsed, command, behind_size, size_command, begun, other_command, binary_frame,
  next_chunk, written, last_chunk, last_written, ended,
}
use ota_ws_update.Http.Upload.{chunk_request}
use ota_ws_update.Http.Calls.{Logged, logged, recorded}
use ota_ws_update.Stack.Boot.EncryptedImage.{HasVerified, encrypted_boots_verified}
use ota_ws_update.Tests.Chip.{state_of, chip, chip_laws, chip-BootLaws, empty_chip}
use ota_ws_update.Tests.Frames.{size_request, size_parse, first_chunk, second_chunk}
use ota_ws_update.Tests.PreEncrypted.{State, copying, copying_laws}

abbrev library : EncryptedImg
library = copying esp_ok

abbrev idle : Session (Logged State)
idle = Session.initial (record { inner = initial empty_chip; calls = [] })

abbrev half : Session (Logged State)
half = state_of idle (
    serve (logged (pre_encrypted chip library false [])) size_parse 4100
      (size_request ∷ chunk_request first_chunk ∷ []) idle)

abbrev whole : Session (Logged State)
whole = state_of half (
    ota_ws_handler (logged (pre_encrypted chip library false [])) size_parse 4100
      (chunk_request second_chunk) half)

half_served :
    serve
      (logged (pre_encrypted chip library false []))
      size_parse
      4100
      (size_request ∷ chunk_request first_chunk ∷ [])
      idle
    ≡ done (esp_ok ∷ esp_ok ∷ []) half
unfolding serve ota_ws_handler receive_frame received recv_ret process_frame text_frame parsed
    command behind_size size_command begun other_command binary_frame next_chunk written
    json_to_str_parm copy_token filled c_string sub32 int_ltb is_key strncmp_is_zero atoi
    start_ota_ws write_ota_ws recorded add32 esp_encrypted_img_decrypt_data set_out set_out_len
    decrypted pointee check_header flash
half_served = refl

whole_handled :
    ota_ws_handler
      (logged (pre_encrypted chip library false []))
      size_parse
      4100
      (chunk_request second_chunk)
      half
    ≡ done esp_ok whole
unfolding serve ota_ws_handler receive_frame received recv_ret process_frame text_frame parsed
    command behind_size size_command begun other_command binary_frame next_chunk written
    json_to_str_parm copy_token filled c_string sub32 int_ltb is_key strncmp_is_zero atoi
    start_ota_ws write_ota_ws recorded add32 esp_encrypted_img_decrypt_data set_out set_out_len
    decrypted pointee check_header flash last_chunk last_written ended end_ota_ws
    esp_encrypted_img_decrypt_end
whole_handled = refl

encrypted_boots_verified_example :
    (chip.esp_ota_get_boot_partition whole.backend.inner.dev
      ≡ chip.esp_ota_get_boot_partition half.backend.inner.dev)
    ⊎ HasVerified chip chip_laws library [] half.ota_size whole.backend
encrypted_boots_verified_example =
    encrypted_boots_verified chip chip_laws chip-BootLaws library (copying_laws esp_ok) false []
      size_parse 4100 (size_request ∷ chunk_request first_chunk ∷ []) (chunk_request second_chunk)
      (initial empty_chip) (esp_ok ∷ esp_ok ∷ []) half esp_ok whole half_served whole_handled
