-- ===== src/Client/Phases.antt =====
-- The states through which an update from the page goes.
use ota_ws_update.Base.{
  some, ℕ, ◌+◌, ◌*◌, ◌<◌, ◌≡◌, List, [], ◌∷◌, Bytes, arith, length, take, drop,
}
use ota_ws_update.Esp.{esp_ok, done}
use ota_ws_update.Backend.{Backend}
use ota_ws_update.Jsmn.{JsmnParse}
use ota_ws_update.Http.Session.{Session}
use ota_ws_update.Http.Message.{
  set_chunk_size_message, first_chunk_message, next_chunk_message, end_message,
}
use ota_ws_update.Http.Handler.{ota_chunk_size}
use ota_ws_update.Http.Upload.{chunk_request, upload}
use ota_ws_update.Client.{JsonValue, number, Json, JsonLaws, Page, text_request}
use ota_ws_update.Client.Pieces.{IsSplit, parts, parts-IsSplit}
use ota_ws_update.Client.World.{World}
use ota_ws_update.Client.Ready.{IsReady, size_text}

module _ (be : Backend) (jsmn_parse : JsmnParse) (chunk_config : ℕ) (json : Json)
    (laws : JsonLaws json) (file : Bytes) (b b1 b2 : be.State) (bufs : ℕ)
    (ready : IsReady be jsmn_parse chunk_config file b b1 b2) where
  -- The device while the update runs, with `start` bytes taken.
  abbrev pub running : ℕ → be.State → List Bytes → Session be.State
  running start s sent = record {
    ota_size = length file;
    ota_start_chunk = start;
    ota_started = 1;
    backend = s;
    sent = sent;
    live_bufs = bufs;
  }

  -- The device once the update has ended.
  abbrev pub ended_session : List Bytes → Session be.State
  ended_session sent = record {
    ota_size = 0;
    ota_start_chunk = 0;
    ota_started = 0;
    backend = b2;
    sent = sent;
    live_bufs = bufs;
  }

  abbrev pub page_with : JsonValue → ℕ → Page
  page_with n flag = record { ota_data = some file; ota_set_chunk_size = n; ota_started = flag }

  abbrev pub chunk_size : ℕ
  chunk_size = ota_chunk_size chunk_config

  -- The device has taken `start` bytes, and c and then cs are the parts that are left.
  pub record IsLeft (start : ℕ) (c : Bytes) (cs : List Bytes) (s : be.State) : Type 0 where
    pub split : IsSplit chunk_size (drop start file) c cs
    pub inside : start < length file
    pub takes : upload be c cs s ≡ done esp_ok b2

  -- `announced`: the size is on its way; `told`: the answer to it is; `asked_first`, `asked`: the
  -- question for a part; `sending`: that part; `ended`: the news of the end.
  pub data Phase (W : World be.State) : Type 0 where
    announced :
        (n : JsonValue) (w : Session be.State)
        → w.backend ≡ b
        → w.live_bufs ≡ bufs
        → w.sent ≡ []
        → W ≡ record {
          page = page_with n 1;
          frames = text_request (size_text (length file)) ∷ [];
          session = w;
        }
        → Phase W
    told :
        (n : JsonValue)
        → W ≡ record {
          page = page_with n 1;
          frames = [];
          session = running 0 b1 (first_chunk_message 0 ∷ set_chunk_size_message chunk_size ∷ []);
        }
        → Phase W
    asked_first :
        W ≡ record {
          page = page_with (number chunk_size) 1;
          frames = [];
          session = running 0 b1 (first_chunk_message 0 ∷ []);
        }
        → Phase W
    asked :
        (start : ℕ) (c : Bytes) (cs : List Bytes) (s : be.State)
        → IsLeft start c cs s
        → W ≡ record {
          page = page_with (number chunk_size) 1;
          frames = [];
          session = running start s (next_chunk_message start ∷ []);
        }
        → Phase W
    sending :
        (start : ℕ) (c : Bytes) (cs : List Bytes) (s : be.State)
        → IsLeft start c cs s
        → W ≡ record {
          page = page_with (number chunk_size) 1;
          frames = chunk_request c ∷ [];
          session = running start s [];
        }
        → Phase W
    ended :
        W ≡ record {
          page = page_with (number chunk_size) 1;
          frames = [];
          session = ended_session (end_message ∷ []);
        }
        → Phase W
    complete :
        W ≡ record {
          page = page_with (number chunk_size) 0;
          frames = [];
          session = ended_session [];
        }
        → Phase W

  pub first-IsLeft : IsLeft 0 (take chunk_size file) (parts (length file) chunk_size file) b1
  first-IsLeft = record {
    split =
        parts-IsSplit (length file) chunk_size file ready.some_chunk ready.some_byte (omega arith);
    inside = ready.some_byte;
    takes = ready.takes;
  }

  -- How many steps are left.
  abbrev pub rank : (W : World be.State) → Phase W → ℕ
  rank W (announced n w _ _ _ _) = 2 * length (parts (length file) chunk_size file) + 5
  rank W (told n _) = 2 * length (parts (length file) chunk_size file) + 4
  rank W (asked_first _) = 2 * length (parts (length file) chunk_size file) + 3
  rank W (asked start c cs s _ _) = 2 * length cs + 3
  rank W (sending start c cs s _ _) = 2 * length cs + 2
  rank W (ended _) = 1
  rank W (complete _) = 0
