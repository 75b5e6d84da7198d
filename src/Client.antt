-- ===== src/Client.antt =====
-- source/ota_ws_update.html: the page in the browser, as far as it takes part in an update. The
-- elements that it shows are left out.
pub mod Pieces
pub mod World
pub mod Replies
pub mod Ready
pub mod Only
pub mod Phases
pub mod Progress
pub mod Moves
pub mod Complete
pub mod Settle
pub mod Commands
pub mod Bounds
pub mod Acts
pub mod Tame
pub mod Sends
pub mod Safe
use ota_ws_update.Base.{
  ℕ, zero, suc, ◌+◌, ◌<◌, ◌≡◌, Bool, true, false, ◌&&◌, Option, none, some, List, [], ◌∷◌, ◌++◌,
  Bytes, codes, length, ltb, take, drop, replicate, ◌==◌, if◌then◌else◌,
}
use ota_ws_update.Word.{sign_bit}
use ota_ws_update.Http.Keys
use ota_ws_update.Http.Message.{int_pair, string_pair}
use ota_ws_update.Esp.{esp_ok}
use ota_ws_update.Http.Handler.{Request, text}
use ota_ws_update.Http.Upload.{chunk_request}

pub data JsonValue : Type 0 where
  number : ℕ → JsonValue
  string : Bytes → JsonValue

-- The browser's JSON, on objects with the members "name" and "value"; `none` is an exception.
-- `coerced_part` is what `subarray` gives where its bounds come from a string, which JavaScript
-- coerces.
pub record Json : Type 0 where
  pub parse : Bytes → Option (Bytes × JsonValue)
  pub stringify : Bytes → JsonValue → Bytes
  pub coerced_part : Bytes → JsonValue → JsonValue → Bytes

abbrev pub blanks : ℕ → Bytes
blanks n = replicate n b' '

-- Printable ASCII, and neither a quotation mark nor a backslash: JSON writes it as it is.
unfoldable pub unescaped : Bytes → Bool
unescaped [] = true
unescaped (c ∷ cs) =
    ltb 31 c
    && ltb c 127
    && (if c == b'"' then false else true)
    && (if c == 92 then false else true)
    && unescaped cs

-- What the JSON standard says of such objects: blanks round a value do not count, and `stringify`
-- writes none.
pub record JsonLaws (json : Json) : Type 0 where
  pub parse_number :
      (name : Bytes) (before n behind : ℕ)
      → unescaped name ≡ true
      → n < sign_bit
      → json.parse (int_pair name (blanks before) n (blanks behind ++ codes "}"))
        ≡ some (name, number n)
  pub parse_string :
      (name value : Bytes) (behind : ℕ)
      → unescaped name ≡ true
      → unescaped value ≡ true
      → json.parse (string_pair name value (blanks behind ++ codes "}")) ≡ some (name, string value)
  pub stringify_number :
      (name : Bytes) (n : ℕ)
      → unescaped name ≡ true
      → n < sign_bit
      → json.stringify name (number n) ≡ int_pair name [] n (codes "}")
  pub stringify_string :
      (name value : Bytes)
      → unescaped name ≡ true
      → unescaped value ≡ true
      → json.stringify name (string value) ≡ string_pair name value (codes "}")

-- `otaData`, undefined while no file is read; `otaSetChunkSize`; `otaStarted`. The variable
-- `otaStartsegment` is never read.
pub record Page : Type 0 where
  pub ota_data : Option Bytes
  pub ota_set_chunk_size : JsonValue
  pub ota_started : ℕ

-- A text that the browser sends, as it arrives at the device.
abbrev pub text_request : Bytes → Request
text_request bytes = record {
  is_get = false;
  len_ret = esp_ok;
  frame_type = text;
  len = length bytes;
  calloc_ok = true;
  payload_ret = esp_ok;
  payload = bytes;
}

-- `===` of two strings.
abbrev pub same : Bytes → Bytes → Bool
same [] [] = true
same [] (_ ∷ _) = false
same (_ ∷ _) [] = false
same (x ∷ a) (y ∷ b) = x == y && same a b

-- A file that the user has chosen has been read.
unfoldable pub read_ota_file : Bytes → Page → Page
read_ota_file bytes page = record page { ota_data = some bytes }

module _ (json : Json) where
  abbrev cancelled : Page → Page × List Request
  cancelled page = (
    record page { ota_started = 0 },
    text_request (json.stringify Keys.ota_cancel (string (codes "Cancel"))) ∷ [],
  )

  -- A click on the button "otaStartCancel": the page, and the frames it sends.
  unfoldable pub start_cancel : Page → Page × List Request
  start_cancel page = elim page.ota_data [
    | none ↦ cancelled page
    | some bytes ↦
        if (if length bytes == 0 then false else page.ota_started == 0)
        then (
          record page { ota_started = 1 },
          text_request (json.stringify Keys.ota_size_start (number (length bytes))) ∷ [],
        )
        else cancelled page
  ]

  -- Clicks on "otaVerifyApp", "otaRollback" and "otaReStart".
  unfoldable pub verify_app : List Request
  verify_app = text_request (json.stringify Keys.ota_process_rollback (string (codes "false"))) ∷ []

  unfoldable pub rollback : List Request
  rollback = text_request (json.stringify Keys.ota_process_rollback (string (codes "true"))) ∷ []

  unfoldable pub restart : List Request
  restart = text_request (json.stringify Keys.ota_restart_esp (string (codes "restart"))) ∷ []

  -- `otaData.subarray(obj.value, obj.value + otaSetChunkSize)`
  unfoldable pub chunk_asked : Bytes → JsonValue → JsonValue → Bytes
  chunk_asked bytes (number from) (number size) = take size (drop from bytes)
  chunk_asked bytes from size = json.coerced_part bytes from size

  -- Without a file the use of `otaData` is an exception, which is only logged.
  unfoldable pub get_chunk : JsonValue → Page → Page × List Request
  unfolding chunk_asked
  get_chunk from page = elim page.ota_data [
    | none ↦ (page, [])
    | some bytes ↦ (page, chunk_request (chunk_asked bytes from page.ota_set_chunk_size) ∷ [])
  ]

  -- The cases of the switch in `receiveWsData`.
  unfoldable pub received_object : Bytes → JsonValue → Page → Page × List Request
  unfolding get_chunk
  received_object name value page =
      if same name Keys.ota_set_chunk_size
      then (record page { ota_set_chunk_size = value }, [])
      else if same name Keys.ota_get_chunk
      then get_chunk value page
      else if same name Keys.ota_end
      then (record page { ota_started = 0 }, [])
      else if same name Keys.ota_error
      then (record page { ota_started = 0 }, [])
      else if same name Keys.ota_cancel
      then (record page { ota_started = 0 }, [])
      else (page, [])

  -- The text is an object, or the exception is only logged.
  unfoldable pub received_text : Option (Bytes × JsonValue) → Page → Page × List Request
  unfolding received_object
  received_text none page = (page, [])
  received_text (some (name, value)) page = received_object name value page

  unfoldable pub receive_ws_data : Bytes → Page → Page × List Request
  unfolding received_text
  receive_ws_data bytes page = received_text (json.parse bytes) page
