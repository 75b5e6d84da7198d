-- ===== src/Client/Replies.antt =====
-- What the page does with each text that the device sends during an update.
use ota_ws_update.Base.{
  ℕ, true, arith, ◌≤◌, length, ◌<◌, ◌≡◌, refl, some, [], ◌∷◌, Bytes, codes, take, drop,
}
use ota_ws_update.Word.{sign_bit}
use ota_ws_update.Http.Keys
use ota_ws_update.Http.Upload.{chunk_request}
use ota_ws_update.Http.Message.{
  set_chunk_size_message, first_chunk_message, next_chunk_message, end_message, error_message,
  int_pair, string_pair,
}
use ota_ws_update.Http.Message.Fits.{
  set_chunk_size_whole, first_chunk_whole, next_chunk_whole, end_whole, error_whole,
}
use ota_ws_update.Client.{Json, JsonLaws, Page, number, string, receive_ws_data, unescaped}

module _ (json : Json) (laws : JsonLaws json) (page : Page) where
  pub receive-set_chunk_size :
      (n : ℕ)
      → n < sign_bit
      → receive_ws_data json (set_chunk_size_message n) page
        ≡ (record page { ota_set_chunk_size = number n }, [])
  unfolding receive_ws_data unescaped
  receive-set_chunk_size n h =
      let parses : json.parse (int_pair Keys.ota_set_chunk_size [] n (codes "}"))
          ≡ some (Keys.ota_set_chunk_size, number n) =
        laws.parse_number Keys.ota_set_chunk_size 0 n 0 refl h in
      rw (set_chunk_size_whole n, parses) refl

  pub receive-first_chunk :
      (n size : ℕ) (bytes : Bytes)
      → n < sign_bit
      → page.ota_data ≡ some bytes
      → page.ota_set_chunk_size ≡ number size
      → receive_ws_data json (first_chunk_message n) page
        ≡ (page, chunk_request (take size (drop n bytes)) ∷ [])
  unfolding receive_ws_data unescaped
  receive-first_chunk n size bytes h read known =
      let parses : json.parse (int_pair Keys.ota_get_chunk [] n (codes "}"))
          ≡ some (Keys.ota_get_chunk, number n) =
        laws.parse_number Keys.ota_get_chunk 0 n 0 refl h in
      rw (first_chunk_whole n, parses) (rw read (rw known refl))

  pub receive-next_chunk :
      (n size : ℕ) (bytes : Bytes)
      → n < sign_bit
      → page.ota_data ≡ some bytes
      → page.ota_set_chunk_size ≡ number size
      → receive_ws_data json (next_chunk_message n) page
        ≡ (page, chunk_request (take size (drop n bytes)) ∷ [])
  unfolding receive_ws_data unescaped
  receive-next_chunk n size bytes h read known =
      let parses : json.parse (int_pair Keys.ota_get_chunk (codes " ") n (codes " }"))
          ≡ some (Keys.ota_get_chunk, number n) =
        laws.parse_number Keys.ota_get_chunk 1 n 1 refl h in
      rw (next_chunk_whole n, parses) (rw read (rw known refl))

  pub receive-end : receive_ws_data json end_message page ≡ (record page { ota_started = 0 }, [])
  unfolding receive_ws_data unescaped
  receive-end =
      let parses : json.parse (string_pair Keys.ota_end (codes "OK") (codes " }"))
          ≡ some (Keys.ota_end, string (codes "OK")) =
        laws.parse_string Keys.ota_end (codes "OK") 1 refl refl in
      rw (end_whole, parses) refl

  -- The news of a failure.
  pub receive-error :
      (msg : Bytes)
      → length msg ≤ 90
      → unescaped msg ≡ true
      → receive_ws_data json (error_message Keys.ota_error msg) page
        ≡ (record page { ota_started = 0 }, [])
  unfolding receive_ws_data unescaped
  receive-error msg short plain_text =
      let parses : json.parse (string_pair Keys.ota_error msg (codes "}"))
          ≡ some (Keys.ota_error, string msg) =
        laws.parse_string Keys.ota_error msg 0 refl plain_text in
      rw (error_whole Keys.ota_error msg (omega (arith, short)), parses) refl
