-- ===== src/Tests/Boot.antt =====
-- The chunk with which the device comes to boot from the new partition.
use ota_ws_update.Base.{◌≡◌, ◌⊎◌, refl, true, false, some, [], ◌∷◌, ◌++◌}
use ota_ws_update.Esp.{esp_ok, done}
use ota_ws_update.Word.{add32, sub32, int_ltb}
use ota_ws_update.Text.{c_string, atoi, strncmp_is_zero}
use ota_ws_update.Plain.{EspOta, initial, plain, start_ota_ws, write_ota_ws, end_ota_ws}
use ota_ws_update.Http.Json.{json_to_str_parm, copy_token}
use ota_ws_update.Http.Message.{
  set_chunk_size_message, first_chunk_message, next_chunk_message, end_message,
}
use ota_ws_update.Http.Session
use ota_ws_update.Http.Session.{Session}
use ota_ws_update.Http.Handler.{
  filled, is_key, ota_chunk_size, serve, ota_ws_handler, receive_frame, received, recv_ret,
  process_frame, text_frame, parsed, command, behind_size, size_command, begun, other_command,
  binary_frame, next_chunk, written, last_chunk, last_written, ended,
}
use ota_ws_update.Http.Upload.{chunk_request}
use ota_ws_update.Http.Calls.{Logged, logged, Call, started, wrote, recorded}
use ota_ws_update.Stack.Boot.PlainImage.{HasArrived, plain_boots_whole}
use ota_ws_update.Tests.Chip.{Chip, chip, chip_laws, chip-BootLaws, empty_chip}
use ota_ws_update.Tests.Frames.{size_request, size_parse, first_chunk, second_chunk}

abbrev half : Session (Logged (EspOta Chip))
half = record {
  ota_size = 8;
  ota_start_chunk = 5;
  ota_started = 1;
  backend = record {
    inner = record {
      update_partition = some 1;
      image_header_was_checked = true;
      update_handle = 1;
      dev = record { boot = 0; image = first_chunk };
    };
    calls = wrote 5 (some (first_chunk ++ (0 ∷ []))) esp_ok ∷ started esp_ok ∷ [];
  };
  sent =
      next_chunk_message 5
      ∷ first_chunk_message 0
      ∷ set_chunk_size_message (ota_chunk_size 4100)
      ∷ [];
  live_bufs = 0;
}

abbrev whole : Session (Logged (EspOta Chip))
whole = record {
  ota_size = 0;
  ota_start_chunk = 0;
  ota_started = 0;
  backend = record {
    inner = record {
      update_partition = some 1;
      image_header_was_checked = true;
      update_handle = 1;
      dev = record { boot = 1; image = first_chunk ++ second_chunk };
    };
    calls =
        Call.ended esp_ok
        ∷ wrote 3 (some (second_chunk ++ (0 ∷ []))) esp_ok
        ∷ wrote 5 (some (first_chunk ++ (0 ∷ []))) esp_ok
        ∷ started esp_ok
        ∷ [];
  };
  sent =
      end_message
      ∷ next_chunk_message 5
      ∷ first_chunk_message 0
      ∷ set_chunk_size_message (ota_chunk_size 4100)
      ∷ [];
  live_bufs = 0;
}

half_served :
    serve
      (logged (plain chip false))
      size_parse
      4100
      (size_request ∷ chunk_request first_chunk ∷ [])
      (Session.initial (record { inner = initial empty_chip; calls = [] }))
    ≡ done (esp_ok ∷ esp_ok ∷ []) half
unfolding serve ota_ws_handler receive_frame received recv_ret process_frame text_frame parsed
    command behind_size size_command begun other_command binary_frame next_chunk written
    json_to_str_parm copy_token filled c_string sub32 int_ltb is_key strncmp_is_zero atoi
    start_ota_ws write_ota_ws recorded add32
half_served = refl

whole_handled :
    ota_ws_handler (logged (plain chip false)) size_parse 4100 (chunk_request second_chunk) half
    ≡ done esp_ok whole
unfolding ota_ws_handler receive_frame received recv_ret process_frame binary_frame last_chunk
    last_written ended filled write_ota_ws end_ota_ws recorded add32
whole_handled = refl

plain_boots_whole_example :
    (chip.esp_ota_get_boot_partition whole.backend.inner.dev
      ≡ chip.esp_ota_get_boot_partition half.backend.inner.dev)
    ⊎ HasArrived chip chip_laws 8 whole.backend
plain_boots_whole_example =
    plain_boots_whole chip chip_laws chip-BootLaws false size_parse 4100
      (size_request ∷ chunk_request first_chunk ∷ []) (chunk_request second_chunk)
      (initial empty_chip) (esp_ok ∷ esp_ok ∷ []) half esp_ok whole half_served whole_handled
