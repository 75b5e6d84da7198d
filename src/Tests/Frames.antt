-- ===== src/Tests/Frames.antt =====
-- Text frames, the tokens of their texts, and the chunks of a small image.
use ota_ws_update.Base.{
  ℕ, zero, suc, ◌+◌, ◌<◌, ◌≡◌, refl, inr, Bool, true, false, ◌&&◌, some, Bytes, List, [], ◌∷◌,
  length, replicate, get_elem?, ltb, arith, codes,
}
use ota_ws_update.Esp.{esp_ok, done}
use ota_ws_update.Jsmn.{JsmnToken, JsmnParse}
use ota_ws_update.Word.{sub32, int_ltb}
use ota_ws_update.Text.{c_string}
use ota_ws_update.Http.Keys
use ota_ws_update.Http.Json.{json_to_str_parm, copy_token, parm_size}
use ota_ws_update.Http.Handler.{Request, text, filled}
use ota_ws_update.Http.TextFrame.{IsTextFrame}
use ota_ws_update.Http.Connection.{IsReadable}
use ota_ws_update.Tests.Tokens.{knows, token}

abbrev pub text_request : Bytes → Request
text_request bytes = record {
  is_get = false;
  len_ret = esp_ok;
  frame_type = text;
  len = length bytes;
  calloc_ok = true;
  payload_ret = esp_ok;
  payload = bytes;
}

pub text_request-IsTextFrame : (bytes : Bytes) → IsTextFrame (text_request bytes)
text_request-IsTextFrame bytes = record {
  not_get = refl;
  has_len = refl;
  is_text = refl;
  allocated = refl;
  has_payload = refl;
}

abbrev pub size_request : Request
size_request = text_request (codes "{\"name\":\"otaSize\",\"value\":\"8\"}")

abbrev pub size_tokens : List JsmnToken
size_tokens = token 0 30 ∷ token 2 6 ∷ token 9 16 ∷ token 19 24 ∷ token 27 28 ∷ []

abbrev pub size_parse : JsmnParse
size_parse = knows size_tokens 30

pub size_parsed :
    {S : Type 0} (s : S)
    → json_to_str_parm size_parse (some (filled size_request.len size_request.payload)) s
      ≡ done (record { ret = esp_ok; name = Keys.ota_size_start; value = codes "8" }) s
unfolding json_to_str_parm copy_token filled c_string sub32 int_ltb
size_parsed s = refl

abbrev pub cancel_request : Request
cancel_request = text_request (codes "{\"name\":\"otaCancel\",\"value\":\"1\"}")

abbrev pub cancel_parse : JsmnParse
cancel_parse = knows (token 0 32 ∷ token 2 6 ∷ token 9 18 ∷ token 21 26 ∷ token 29 30 ∷ []) 32

pub cancel_parsed :
    {S : Type 0} (s : S)
    → json_to_str_parm cancel_parse (some (filled cancel_request.len cancel_request.payload)) s
      ≡ done (record { ret = esp_ok; name = Keys.ota_cancel; value = codes "1" }) s
unfolding json_to_str_parm copy_token filled c_string sub32 int_ltb
cancel_parsed s = refl

abbrev all_short : List JsmnToken → Bool
all_short [] = true
all_short (t ∷ ts) = ltb t.end (t.start + parm_size) && all_short ts

all_short-lt :
    (ts : List JsmnToken) (i : ℕ) (t : JsmnToken)
    → all_short ts ≡ true
    → get_elem? ts i ≡ some t
    → t.end < t.start + parm_size
all_short-lt [] i t h e = cc
all_short-lt (x ∷ ts) zero t h e = ground arith
all_short-lt (x ∷ ts) (suc i) t h e = all_short-lt ts i t (ground arith) e

pub size-IsReadable :
    IsReadable size_parse (c_string (filled size_request.len size_request.payload))
unfolding filled c_string
size-IsReadable = record {
  fits_word = omega arith;
  counted = inr (inr refl);
  short = λ i t e. all_short-lt size_tokens i t refl e;
}

-- An image of eight bytes, in two chunks.
abbrev pub first_chunk : Bytes
first_chunk = replicate 5 233

abbrev pub second_chunk : Bytes
second_chunk = 1 ∷ 2 ∷ 3 ∷ []
