-- ===== src/Http/Faults.antt =====
-- Frames on which the handler has undefined behaviour.
use ota_ws_update.Base.{
  ℕ, zero, suc, List, [], ◌∷◌, Bytes, ◌+◌, ◌≤◌, ◌<◌, ◌≡◌, refl, false, none, some, arith, length,
  get_elem?, ◌==◌,
}
use ota_ws_update.Word.{int_ltb, sub32, u32_mod}
use ota_ws_update.Text.{c_string}
use ota_ws_update.Esp.{Fault, null_dereference, uninitialised_read, buffer_overflow, crash}
use ota_ws_update.Backend.{Backend}
use ota_ws_update.Jsmn.{JsmnParse, JsmnLaws, JsmnToken}
use ota_ws_update.Http.TextFrame.{IsTextFrame}
use ota_ws_update.Http.Session.{Session, calloc_buf}
use ota_ws_update.Http.Json.{json_to_str_parm, copy_token, num_tokens, parm_size}
use ota_ws_update.Http.Handler.{
  Request, filled, received, receive_frame, process_frame, text_frame, ota_ws_handler,
}

get_elem?-beyond {ℓ} : {A : Type ℓ} (xs : List A) (i : ℕ) → length xs ≤ i → get_elem? xs i ≡ none
get_elem?-beyond [] i h = refl
get_elem?-beyond (x ∷ xs) zero h = absurd (omega arith)
get_elem?-beyond (x ∷ xs) (suc i) h = get_elem?-beyond xs i (omega arith)

module _ (be : Backend) (jsmn_parse : JsmnParse) (chunk_config : ℕ) where
  -- A text frame with no payload makes the handler read the text at NULL, in every state.
  pub ota_ws_handler-empty_text :
      (req : Request) (w : Session be.State)
      → IsTextFrame req
      → req.len ≡ 0
      → ota_ws_handler be jsmn_parse chunk_config req w ≡ crash null_dereference
  unfolding ota_ws_handler receive_frame process_frame text_frame json_to_str_parm
  ota_ws_handler-empty_text req w t h = simp (t.not_get, t.has_len, t.is_text, h)

  -- What the parser runs into is what the handler runs into.
  handler-crash :
      (req : Request) (w : Session be.State) (f : Fault)
      → IsTextFrame req
      → (req.len == 0) ≡ false
      → ((s : Session be.State)
          → json_to_str_parm jsmn_parse (some (filled req.len req.payload)) s ≡ crash f)
      → ota_ws_handler be jsmn_parse chunk_config req w ≡ crash f
  unfolding ota_ws_handler receive_frame process_frame text_frame received calloc_buf
  handler-crash req w f t h json =
      simp (t.not_get, t.has_len, t.is_text, t.allocated, t.has_payload, h, json)

  json-two_tokens :
      {S : Type 0} (buf : Bytes) (s : S)
      → JsmnLaws jsmn_parse
      → (jsmn_parse (c_string buf) num_tokens).r ≡ 2
      → json_to_str_parm jsmn_parse (some buf) s ≡ crash uninitialised_read
  unfolding json_to_str_parm copy_token int_ltb
  json-two_tokens buf s laws two =
      let tokens = (jsmn_parse (c_string buf) num_tokens).tokens in
      let counts = laws.counts (c_string buf) num_tokens in
      rw (two, get_elem?-beyond tokens 2 (ground arith)) refl

  -- A text of which the tokenizer makes exactly two tokens, such as {"otaCancel"}, passes the test
  -- `r < 2`, and the handler reads the third token, which was never written.
  pub ota_ws_handler-two_tokens :
      (req : Request) (w : Session be.State)
      → JsmnLaws jsmn_parse
      → IsTextFrame req
      → (req.len == 0) ≡ false
      → (jsmn_parse (c_string (filled req.len req.payload)) num_tokens).r ≡ 2
      → ota_ws_handler be jsmn_parse chunk_config req w ≡ crash uninitialised_read
  ota_ws_handler-two_tokens req w laws t h two =
      handler-crash req w uninitialised_read t h
        (λ s. json-two_tokens (filled req.len req.payload) s laws two)

  json-long_name :
      {S : Type 0} (buf : Bytes) (s : S) (t : JsmnToken)
      → int_ltb (jsmn_parse (c_string buf) num_tokens).r 2 ≡ false
      → get_elem? (jsmn_parse (c_string buf) num_tokens).tokens 2 ≡ some t
      → t.start + parm_size ≤ t.end
      → t.end ≤ length (c_string buf)
      → length (c_string buf) < u32_mod
      → json_to_str_parm jsmn_parse (some buf) s ≡ crash buffer_overflow
  unfolding json_to_str_parm copy_token sub32
  json-long_name buf s t enough found long inside word = rw (enough, found) (ground arith)

  -- A text whose third token, the value of "name", has 64 bytes or more overflows the buffer
  -- `json_key` on the handler's stack.
  pub ota_ws_handler-long_name :
      (req : Request) (w : Session be.State) (token : JsmnToken)
      → JsmnLaws jsmn_parse
      → IsTextFrame req
      → (req.len == 0) ≡ false
      → let js = c_string (filled req.len req.payload) in
        (int_ltb (jsmn_parse js num_tokens).r 2 ≡ false)
        → get_elem? (jsmn_parse (c_string (filled req.len req.payload)) num_tokens).tokens 2
          ≡ some token
        → token.start + parm_size ≤ token.end
        → length (c_string (filled req.len req.payload)) < u32_mod
        → ota_ws_handler be jsmn_parse chunk_config req w ≡ crash buffer_overflow
  ota_ws_handler-long_name req w token laws t h enough found long word =
      handler-crash req w buffer_overflow t h (λ s.
        json-long_name (filled req.len req.payload) s token enough found long
          (laws.inside (c_string (filled req.len req.payload)) num_tokens 2 token found).1 word)
