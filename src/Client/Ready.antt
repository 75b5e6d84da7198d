-- ===== src/Client/Ready.antt =====
-- What an update from the page needs, and what the device does with each frame of the page.
use ota_ws_update.Base.{
  ℕ, ◌<◌, ◌≡◌, refl, false, List, [], ◌∷◌, ◌++◌, some, Bytes, arith, codes, length, length-append,
  take, ◌==◌, if◌then◌else◌,
}
use ota_ws_update.Word.{sign_bit}
use ota_ws_update.Text.Decimal.{print_int}
use ota_ws_update.Text.Laws.{atoi-print_int, length-print_int, lacks-print_int}
use ota_ws_update.Esp.{esp_ok, is_err, done, pure, bind-eq-done, passed}
use ota_ws_update.Backend.{Backend}
use ota_ws_update.Jsmn.{JsmnParse}
use ota_ws_update.Http.Keys
use ota_ws_update.Http.Session.{Session}
use ota_ws_update.Http.Json.{num_tokens, json_to_str_parm}
use ota_ws_update.Http.Json.Pair.{pair_text, pair_tokens, json_to_str_parm-pair}
use ota_ws_update.Http.Message.{int_pair}
use ota_ws_update.Http.TextFrame.{IsTextFrame}
use ota_ws_update.Http.Handler.{filled, ota_chunk_size, ota_ws_handler}
use ota_ws_update.Http.Upload.{upload}
use ota_ws_update.Http.Upload.Announce.{announced, handler-announced}
use ota_ws_update.Http.Upload.Steps.{filled_whole}
use ota_ws_update.Client.{text_request}
use ota_ws_update.Client.Pieces.{parts}

-- The text that announces a size.
abbrev pub size_text : ℕ → Bytes
size_text n = int_pair Keys.ota_size_start [] n (codes "}")

-- The tokenizer finds the tokens of the text that announces a size.
abbrev pub FindsSize : JsmnParse → ℕ → Type 0
FindsSize jsmn_parse n =
    let between = codes "\",\"value\":" in
    jsmn_parse (pair_text Keys.ota_size_start between (print_int n) (codes "}")) num_tokens
    ≡ record { r = 5; tokens = pair_tokens Keys.ota_size_start between (print_int n) (codes "}") }

-- The page has a file, the device's tokenizer finds the tokens of the text that announces its size, and
-- the flash writer takes the start and the file's parts of the configured size, from b to b2.
pub record IsReady (be : Backend) (jsmn_parse : JsmnParse) (chunk_config : ℕ) (file : Bytes)
    (b b1 b2 : be.State) : Type 0 where
  pub some_chunk : 0 < ota_chunk_size chunk_config
  pub chunk_fits : ota_chunk_size chunk_config < sign_bit
  pub some_byte : 0 < length file
  pub file_fits : length file < sign_bit
  pub found : FindsSize jsmn_parse (length file)
  pub starts : be.start_ota_ws b ≡ done esp_ok b1
  pub takes :
      let n = ota_chunk_size chunk_config in
      upload be (take n file) (parts (length file) n file) b1 ≡ done esp_ok b2

pub text_request-IsTextFrame : (bytes : Bytes) → IsTextFrame (text_request bytes)
text_request-IsTextFrame bytes = record {
  not_get = refl;
  has_len = refl;
  is_text = refl;
  allocated = refl;
  has_payload = refl;
}

pub size-parsed :
    {S : Type 0} (jsmn_parse : JsmnParse) (n : ℕ) (s : S)
    → FindsSize jsmn_parse n
    → let bytes = size_text n in
      json_to_str_parm jsmn_parse (some (filled (length bytes) bytes)) s
      ≡ done (record { ret = esp_ok; name = Keys.ota_size_start; value = print_int n }) s
unfolding int_pair
size-parsed jsmn_parse n s found =
    let digits = print_int n in
    let short = length-print_int n in
    rw (filled_whole (size_text n)) (
      json_to_str_parm-pair Keys.ota_size_start (codes "\",\"value\":") digits (codes "}")
        jsmn_parse [] s refl refl (lacks-print_int n) refl (omega arith) (omega arith)
        (omega (arith, short, length-append {0} {A = ℕ} digits (codes "}"))) found)

pub size-long : (n : ℕ) → (length (size_text n) == 0) ≡ false
unfolding int_pair
size-long n = ground arith

-- The device takes the announcement of a size.
pub handler-size :
    (be : Backend) (jsmn_parse : JsmnParse) (chunk_config n : ℕ) (w : Session be.State)
    (b : be.State)
    → FindsSize jsmn_parse n
    → 0 < n
    → n < sign_bit
    → be.start_ota_ws w.backend ≡ done esp_ok b
    → ota_ws_handler be jsmn_parse chunk_config (text_request (size_text n)) w
      ≡ done esp_ok (announced chunk_config n b w)
handler-size be jsmn_parse chunk_config n w b found some_byte fits starts =
    let value = atoi-print_int n (omega arith) in
    rw value at (
      handler-announced be jsmn_parse chunk_config (text_request (size_text n)) w b (print_int n)
        (text_request-IsTextFrame _) (size-long n) (λ s. size-parsed jsmn_parse n s found)
        (ground (arith, value)) starts)

module _ (be : Backend) (jsmn_parse : JsmnParse) (chunk_config : ℕ) (file : Bytes)
    (b b1 b2 : be.State) (ready : IsReady be jsmn_parse chunk_config file b b1 b2) where
  pub device-size :
      (w : Session be.State)
      → w.backend ≡ b
      → ota_ws_handler be jsmn_parse chunk_config (text_request (size_text (length file))) w
        ≡ done esp_ok (announced chunk_config (length file) b1 w)
  device-size w same =
      handler-size be jsmn_parse chunk_config (length file) w b1 ready.found ready.some_byte
        ready.file_fits (rw same ready.starts)

  -- The upload of one part, and of those behind it.
  pub upload-next :
      (c d : Bytes) (ds : List Bytes) (s : be.State)
      → upload be c (d ∷ ds) s ≡ done esp_ok b2
      → (s1 : be.State) × (be.write_ota_ws (length c) (some (c ++ (0 ∷ []))) s ≡ done esp_ok s1)
        × (upload be d ds s1 ≡ done esp_ok b2)
  unfolding upload
  upload-next c d ds s run =
      let (ret, s1, wrote, rest) =
        bind-eq-done (be.write_ota_ws (length c) (some (c ++ (0 ∷ []))) s)
          (λ ret. if is_err ret then pure ret else upload be d ds) run in
      let (good, others) = passed ret s1 (upload be d ds) rest in (s1, rw good at wrote, others)

  pub upload-last :
      (c : Bytes) (s : be.State)
      → upload be c [] s ≡ done esp_ok b2
      → (s1 : be.State) × (be.write_ota_ws (length c) (some (c ++ (0 ∷ []))) s ≡ done esp_ok s1)
        × (be.end_ota_ws s1 ≡ done esp_ok b2)
  unfolding upload
  upload-last c s run =
      let (ret, s1, wrote, rest) =
        bind-eq-done (be.write_ota_ws (length c) (some (c ++ (0 ∷ []))) s)
          (λ ret. if is_err ret then pure ret else be.end_ota_ws) run in
      let (good, ends) = passed ret s1 be.end_ota_ws rest in (s1, rw good at wrote, ends)
