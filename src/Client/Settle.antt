-- ===== src/Client/Settle.antt =====
-- source/ota_ws_update.html and source/ota_ws_update_http.c together: an update from the page with a
-- flash writer that may refuse any of its calls.
pub mod Device
pub mod Parts
pub mod Moves
pub mod Ends
use ota_ws_update.Base.{
  some, ℕ, ◌+◌, ◌*◌, ◌<◌, ◌≡◌, ◌⊎◌, List, [], ◌∷◌, Bytes, arith, length, take, drop,
}
use ota_ws_update.Word.{sign_bit}
use ota_ws_update.Esp.{EspErr, esp_ok, done}
use ota_ws_update.Backend.{Backend}
use ota_ws_update.Backend.Course.{Course, Over}
use ota_ws_update.Jsmn.{JsmnParse}
use ota_ws_update.Http.Session.{Session}
use ota_ws_update.Http.Message.{set_chunk_size_message, first_chunk_message, next_chunk_message}
use ota_ws_update.Http.Handler.{ota_chunk_size}
use ota_ws_update.Http.Upload.{chunk_request}
use ota_ws_update.Client.{JsonValue, number, Json, Page, text_request, receive_ws_data}
use ota_ws_update.Client.Pieces.{IsSplit, parts, parts-IsSplit}
use ota_ws_update.Client.World.{World}
use ota_ws_update.Client.Ready.{FindsSize, size_text}

-- The page has a file, and the device's tokenizer finds the tokens of the text that announces its size.
pub record IsSendable (jsmn_parse : JsmnParse) (chunk_config : ℕ) (file : Bytes) : Type 0 where
  pub some_chunk : 0 < ota_chunk_size chunk_config
  pub chunk_fits : ota_chunk_size chunk_config < sign_bit
  pub some_byte : 0 < length file
  pub file_fits : length file < sign_bit
  pub found : FindsSize jsmn_parse (length file)

-- An end that succeeded or an abort has left the flash writer there.
abbrev pub IsClosed : (be : Backend) → be.State → Type 0
IsClosed be s =
    ((s1 : be.State) × (be.end_ota_ws s1 ≡ done esp_ok s))
    ⊎ ((s1 : be.State) × (ret : EspErr) × (be.abort_ota_ws s1 ≡ done ret s))

-- Nothing is on its way, neither side is in an update, and the receive buffers are those of before.
pub record IsSettled (be : Backend) (P : be.State → Type 0) (bufs : ℕ) (W : World be.State)
    : Type 0 where
  pub no_frames : W.frames ≡ []
  pub no_texts : W.session.sent ≡ []
  pub page_idle : W.page.ota_started ≡ 0
  pub device_idle : W.session.ota_started ≡ 0
  pub same_bufs : W.session.live_bufs ≡ bufs
  pub closed : IsClosed be W.session.backend
  pub kept : P W.session.backend

module _ (be : Backend) (chunk_config : ℕ) (json : Json) (file : Bytes) (course : Course be.State)
    (bufs : ℕ) where
  -- The device while the update runs, with `start` bytes taken, and while none runs.
  abbrev pub running : ℕ → be.State → List Bytes → Session be.State
  running start s sent = record {
    ota_size = length file;
    ota_start_chunk = start;
    ota_started = 1;
    backend = s;
    sent = sent;
    live_bufs = bufs;
  }

  abbrev pub stopped : be.State → List Bytes → Session be.State
  stopped s sent = record {
    ota_size = 0;
    ota_start_chunk = 0;
    ota_started = 0;
    backend = s;
    sent = sent;
    live_bufs = bufs;
  }

  abbrev pub page_with : JsonValue → ℕ → Page
  page_with n flag = record { ota_data = some file; ota_set_chunk_size = n; ota_started = flag }

  abbrev pub chunk_size : ℕ
  chunk_size = ota_chunk_size chunk_config

  -- The device has taken `start` bytes, and c and then cs are the parts that are left.
  pub record IsLeft (start : ℕ) (c : Bytes) (cs : List Bytes) : Type 0 where
    pub split : IsSplit chunk_size (drop start file) c cs
    pub inside : start < length file

  -- A text on which the page leaves its update and sends nothing.
  abbrev pub Closes : Bytes → Type 0
  Closes bytes =
      (page : Page) → receive_ws_data json bytes page ≡ (record page { ota_started = 0 }, [])

  -- `announced`: the size is on its way; `told`: the answer to it is; `asked_first`, `asked`: the
  -- question for a part; `sending`: that part; `closing`: the news of the end or of a failure.
  pub data Phase (W : World be.State) : Type 0 where
    announced :
        (n : JsonValue) (w : Session be.State)
        → course.Before w.backend
        → w.live_bufs ≡ bufs
        → w.sent ≡ []
        → W ≡ record {
          page = page_with n 1;
          frames = text_request (size_text (length file)) ∷ [];
          session = w;
        }
        → Phase W
    told :
        (n : JsonValue) (s : be.State)
        → course.Taken [] s
        → W ≡ record {
          page = page_with n 1;
          frames = [];
          session = running 0 s (first_chunk_message 0 ∷ set_chunk_size_message chunk_size ∷ []);
        }
        → Phase W
    asked_first :
        (s : be.State)
        → course.Taken [] s
        → W ≡ record {
          page = page_with (number chunk_size) 1;
          frames = [];
          session = running 0 s (first_chunk_message 0 ∷ []);
        }
        → Phase W
    asked :
        (start : ℕ) (c : Bytes) (cs : List Bytes) (s : be.State)
        → IsLeft start c cs
        → course.Taken (take start file) s
        → W ≡ record {
          page = page_with (number chunk_size) 1;
          frames = [];
          session = running start s (next_chunk_message start ∷ []);
        }
        → Phase W
    sending :
        (start : ℕ) (c : Bytes) (cs : List Bytes) (s : be.State)
        → IsLeft start c cs
        → course.Taken (take start file) s
        → W ≡ record {
          page = page_with (number chunk_size) 1;
          frames = chunk_request c ∷ [];
          session = running start s [];
        }
        → Phase W
    closing :
        (n : JsonValue) (bytes : Bytes) (s : be.State)
        → Closes bytes
        → IsClosed be s
        → Over course file s
        → W ≡ record { page = page_with n 1; frames = []; session = stopped s (bytes ∷ []) }
        → Phase W
    settled :
        (n : JsonValue) (s : be.State)
        → IsClosed be s
        → Over course file s
        → W ≡ record { page = page_with n 0; frames = []; session = stopped s [] }
        → Phase W

  pub first-IsLeft :
      0 < chunk_size
      → 0 < length file
      → IsLeft 0 (take chunk_size file) (parts (length file) chunk_size file)
  first-IsLeft some_chunk some_byte = record {
    split = parts-IsSplit (length file) chunk_size file some_chunk some_byte (omega arith);
    inside = some_byte;
  }

  -- How many steps are left at most.
  abbrev pub rank : (W : World be.State) → Phase W → ℕ
  rank W (announced n w _ _ _ _) = 2 * length (parts (length file) chunk_size file) + 5
  rank W (told n s _ _) = 2 * length (parts (length file) chunk_size file) + 4
  rank W (asked_first s _ _) = 2 * length (parts (length file) chunk_size file) + 3
  rank W (asked start c cs s _ _ _) = 2 * length cs + 3
  rank W (sending start c cs s _ _ _) = 2 * length cs + 2
  rank W (closing n bytes s _ _ _ _) = 1
  rank W (settled n s _ _ _) = 0
