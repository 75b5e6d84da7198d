-- ===== src/Tests/Protocol.antt =====
-- The protocol on the frames of an update that is broken off.
use ota_ws_update.Base.{◌≡◌, refl, true, false, some, List, [], ◌∷◌, ◌++◌, codes}
use ota_ws_update.Esp.{esp_ok, esp_fail, done}
use ota_ws_update.Text.{c_string, atoi, strncmp_is_zero}
use ota_ws_update.Word.{add32, sub32, int_ltb}
use ota_ws_update.Plain.{EspOta, initial, plain, start_ota_ws, write_ota_ws, abort_ota_ws}
use ota_ws_update.Http.Keys
use ota_ws_update.Http.Json.{json_to_str_parm, copy_token}
use ota_ws_update.Http.Message.{
  error_message, set_chunk_size_message, first_chunk_message, next_chunk_message,
}
use ota_ws_update.Http.Session
use ota_ws_update.Http.Session.{Session}
use ota_ws_update.Http.Handler.{Request, filled, is_key, ota_chunk_size, serve}
use ota_ws_update.Http.Upload.{chunk_requests}
use ota_ws_update.Http.Protocol.{
  no_transfer, call, say, become, give_up, begin, advance, take_chunk, step, run, event, events,
  frame_event, parsed_event, command_event, answered,
}
use ota_ws_update.Http.Protocol.View.{view, seen}
use ota_ws_update.Http.Protocol.Refines.{serve-seen}
use ota_ws_update.Backend.{Ends}
use ota_ws_update.Http.Calls.{logged, stage_after, stage_of}
use ota_ws_update.Http.Calls.Order.{serve-calls}
use ota_ws_update.Tests.Chip.{Chip, chip, empty_chip}
use ota_ws_update.Tests.Frames.{size_request, size_parse, first_chunk, second_chunk}

abbrev idle : Session (EspOta Chip)
idle = Session.initial (initial empty_chip)

-- The size, a chunk, a frame that cannot be received, and the chunk behind it.
abbrev broken_off : List Request
broken_off =
    size_request
    ∷ (chunk_requests (first_chunk ∷ [])
        ++ (record size_request { payload_ret = esp_fail } ∷ chunk_requests (second_chunk ∷ [])))

serve-seen_example :
    seen (serve (plain chip false) size_parse 4100 broken_off idle)
    ≡ run (plain chip false) 4100 (events size_parse broken_off) (view idle)
serve-seen_example = serve-seen (plain chip false) size_parse 4100 broken_off idle

events_computed :
    run (plain chip false) 4100 (events size_parse broken_off) (view idle)
    ≡ done (esp_ok ∷ esp_ok ∷ esp_fail ∷ esp_ok ∷ []) (record {
      transfer = no_transfer;
      backend = record {
        update_partition = some 1;
        image_header_was_checked = true;
        update_handle = 1;
        dev = record { boot = 0; image = first_chunk };
      };
      sent =
          error_message Keys.ota_error (codes "httpd_ws_recv_frame failed")
          ∷ next_chunk_message 5
          ∷ first_chunk_message 0
          ∷ set_chunk_size_message (ota_chunk_size 4100)
          ∷ [];
    })
unfolding run step give_up begin advance take_chunk call say become answered event events
    frame_event parsed_event command_event json_to_str_parm copy_token filled c_string sub32 int_ltb
    is_key strncmp_is_zero atoi start_ota_ws write_ota_ws abort_ota_ws add32
events_computed = refl

serve-calls_example :
    Ends
      (Unit {0})
      (λ _ w. stage_after w.backend.calls ≡ some (stage_of w))
      (serve
        (logged (plain chip false))
        size_parse
        4100
        broken_off
        (Session.initial (record { inner = initial empty_chip; calls = [] })))
serve-calls_example = serve-calls (plain chip false) size_parse 4100 broken_off (initial empty_chip)
