-- ===== src/Tests/Http.antt =====
-- The handler's theorems on concrete frames.
use ota_ws_update.Base.{
  ◌≡◌, ◌<◌, get_elem?, refl, false, some, Bytes, [], ◌∷◌, ◌++◌, length, replicate, codes, arith,
}
use ota_ws_update.Word.{u32_mod, int_ltb}
use ota_ws_update.Text.{c_string}
use ota_ws_update.Esp.{
  esp_ok, esp_fail, done, crash, null_dereference, uninitialised_read, buffer_overflow,
}
use ota_ws_update.Backend.{Ends}
use ota_ws_update.Jsmn.{JsmnParse}
use ota_ws_update.Plain.{initial, abort_ota_ws, write_ota_ws, plain, EspOta}
use ota_ws_update.Plain.Safe.{plain-Keeps}
use ota_ws_update.Http.Session
use ota_ws_update.Http.Session.{Session}
use ota_ws_update.Http.Handler.{filled, ota_ws_handler, serve}
use ota_ws_update.Http.Invariant.{IsConsistent}
use ota_ws_update.Http.Connection.{serve-IsConsistent, serve_safe}
use ota_ws_update.Http.Faults.{
  ota_ws_handler-empty_text, ota_ws_handler-two_tokens, ota_ws_handler-long_name,
}
use ota_ws_update.Http.Upload.{chunk_requests, all_ok}
use ota_ws_update.Http.Upload.Steps.{failed_state}
use ota_ws_update.Http.Upload.Whole.{serve-refused_chunk}
use ota_ws_update.Tests.Chip.{Chip, chip, empty_chip}
use ota_ws_update.Tests.Tokens.{knows, knows_laws, token}
use ota_ws_update.Tests.Frames.{
  text_request, text_request-IsTextFrame, size_request, size_parse, size_tokens, size-IsReadable,
  first_chunk, second_chunk,
}

-- An update of eight bytes, of which five have arrived.
abbrev running : Session (EspOta Chip)
running = record {
  ota_size = 8;
  ota_start_chunk = 5;
  ota_started = 1;
  backend = initial empty_chip;
  sent = [];
  live_bufs = 0;
}

plain-Keeps_example :
    Ends ⊥ (λ _ _. Unit {0}) (write_ota_ws chip false 5 (some first_chunk) (initial empty_chip))
plain-Keeps_example =
    (plain-Keeps chip false (λ d. (1, refl))).write_keeps 5 (some first_chunk) (initial empty_chip)
      tt (omega arith)

serve-IsConsistent_example :
    Ends
      (Unit {0})
      (λ _ w. IsConsistent w × (w.live_bufs ≡ 0))
      (serve
        (plain chip false)
        size_parse
        4096
        (size_request ∷ chunk_requests (first_chunk ∷ second_chunk ∷ []))
        (Session.initial (initial empty_chip)))
serve-IsConsistent_example =
    serve-IsConsistent (plain chip false) size_parse 4096
      (size_request ∷ chunk_requests (first_chunk ∷ second_chunk ∷ [])) (initial empty_chip)

serve_safe_example :
    Ends ⊥
      (λ _ w. Unit {0})
      (serve
        (plain chip false)
        size_parse
        4096
        (size_request ∷ chunk_requests (first_chunk ∷ second_chunk ∷ []))
        (Session.initial (initial empty_chip)))
serve_safe_example =
    serve_safe (plain chip false) size_parse 4096 (knows_laws size_tokens 30 refl) (λ _. Unit)
      (plain-Keeps chip false (λ d. (1, refl)))
      (size_request ∷ chunk_requests (first_chunk ∷ second_chunk ∷ [])) (initial empty_chip) tt
      (λ _. (refl, size-IsReadable), (λ e. cc, (λ e. cc, tt)))

ota_ws_handler-empty_text_example :
    ota_ws_handler (plain chip false) size_parse 4096 (text_request []) running
    ≡ crash null_dereference
ota_ws_handler-empty_text_example =
    ota_ws_handler-empty_text (plain chip false) size_parse 4096 (text_request []) running
      (text_request-IsTextFrame []) refl

-- {"otaCancel"}
abbrev bare_text : Bytes
bare_text = codes "{\"otaCancel\"}"

abbrev bare_parse : JsmnParse
bare_parse = knows (token 0 13 ∷ token 2 11 ∷ []) 13

bare_count : (bare_parse (c_string (filled 13 bare_text)) 5).r ≡ 2
unfolding c_string filled
bare_count = refl

ota_ws_handler-two_tokens_example :
    ota_ws_handler (plain chip false) bare_parse 4096 (text_request bare_text) running
    ≡ crash uninitialised_read
ota_ws_handler-two_tokens_example =
    ota_ws_handler-two_tokens (plain chip false) bare_parse 4096 (text_request bare_text) running
      (knows_laws (token 0 13 ∷ token 2 11 ∷ []) 13 refl) (text_request-IsTextFrame bare_text) refl
      bare_count

-- A name of 64 characters.
abbrev long_text : Bytes
long_text = codes "{\"name\":\"" ++ (replicate 64 b'x' ++ codes "\"}")

abbrev long_parse : JsmnParse
long_parse = knows (token 0 75 ∷ token 2 6 ∷ token 9 73 ∷ []) 75

long_count : int_ltb (long_parse (c_string (filled 75 long_text)) 5).r 2 ≡ false
unfolding c_string filled int_ltb
long_count = refl

long_token : get_elem? (long_parse (c_string (filled 75 long_text)) 5).tokens 2 ≡ some (token 9 73)
unfolding c_string filled
long_token = refl

length-long_text : length (c_string (filled 75 long_text)) < u32_mod
unfolding c_string filled
length-long_text = omega arith

ota_ws_handler-long_name_example :
    ota_ws_handler (plain chip false) long_parse 4096 (text_request long_text) running
    ≡ crash buffer_overflow
ota_ws_handler-long_name_example =
    ota_ws_handler-long_name (plain chip false) long_parse 4096 (text_request long_text) running
      (token 9 73) (knows_laws (token 0 75 ∷ token 2 6 ∷ token 9 73 ∷ []) 75 refl)
      (text_request-IsTextFrame long_text) refl long_count long_token (omega arith) length-long_text

abort_runs : abort_ota_ws chip false (initial empty_chip) ≡ done esp_ok (initial empty_chip)
unfolding abort_ota_ws
abort_runs = refl

-- Three bytes do not exceed the headers.
short_refused :
    write_ota_ws chip false 3 (some (second_chunk ++ (0 ∷ []))) (initial empty_chip)
    ≡ done esp_fail (initial empty_chip)
unfolding write_ota_ws
short_refused = refl

serve-refused_chunk_example :
    serve
      (plain chip false)
      size_parse
      4096
      (chunk_requests (second_chunk ∷ first_chunk ∷ []))
      running
    ≡ done (esp_fail ∷ all_ok (first_chunk ∷ [])) (
        failed_state
          (plain chip false)
          size_parse
          4096
          (codes "Error write ota")
          (initial empty_chip)
          running)
serve-refused_chunk_example =
    serve-refused_chunk (plain chip false) size_parse 4096 second_chunk (first_chunk ∷ []) running
      (initial empty_chip) (initial empty_chip) esp_fail esp_ok (refl, (refl, tt)) refl refl
      short_refused abort_runs
