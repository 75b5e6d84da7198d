-- ===== src/Http/Upload.antt =====
-- A whole update through the web socket: what the flash writer and the client see of it.
pub mod Steps
pub mod Announce
pub mod Whole
pub mod Refused
use ota_ws_update.Base.{
  ℕ, ◌+◌, ◌==◌, ◌≡◌, false, true, List, [], ◌∷◌, ◌++◌, some, Bytes, length, if◌then◌else◌,
}
use ota_ws_update.Esp.{EspErr, esp_ok, is_err, M, pure, ◌>>=◌}
use ota_ws_update.Backend.{Backend}
use ota_ws_update.Http.Handler.{Request, binary}
use ota_ws_update.Http.Message.{next_chunk_message, end_message}

-- A chunk that arrives whole in a binary frame.
abbrev pub chunk_request : Bytes → Request
chunk_request c = record {
  is_get = false;
  len_ret = esp_ok;
  frame_type = binary;
  len = length c;
  calloc_ok = true;
  payload_ret = esp_ok;
  payload = c;
}

abbrev pub chunk_requests : List Bytes → List Request
chunk_requests [] = []
chunk_requests (c ∷ cs) = chunk_request c ∷ chunk_requests cs

abbrev pub total : List Bytes → ℕ
total [] = 0
total (c ∷ cs) = length c + total cs

-- What an update does with the flash writer: each chunk is written, in order, and after the last
-- one the update is ended. The flash writer is given the buffer, with the zero behind the chunk.
unfoldable pub upload : (be : Backend) → Bytes → List Bytes → M be.State EspErr
upload be c [] = do
  ret ← be.write_ota_ws (length c) (some (c ++ (0 ∷ [])))
  if is_err ret then pure ret else be.end_ota_ws
upload be c (d ∷ ds) = be.write_ota_ws (length c) (some (c ++ (0 ∷ []))) >>= λ ret.
    if is_err ret then pure ret else upload be d ds

-- The texts sent during an update, the last one first, on top of those sent before.
abbrev pub replies : ℕ → Bytes → List Bytes → List Bytes → List Bytes
replies start c [] sent = end_message ∷ sent
replies start c (d ∷ ds) sent =
    replies (start + length c) d ds (next_chunk_message (start + length c) ∷ sent)

abbrev pub all_ok : List Bytes → List EspErr
all_ok [] = []
all_ok (c ∷ cs) = esp_ok ∷ all_ok cs

-- No chunk is empty.
abbrev pub NonEmpty : List Bytes → Type 0
NonEmpty [] = Unit
NonEmpty (c ∷ cs) = ((length c == 0) ≡ false) × NonEmpty cs
