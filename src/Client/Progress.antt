-- ===== src/Client/Progress.antt =====
-- What the device makes of a part of the file that the page sends.
use ota_ws_update.Base.{
  ℕ, ◌+◌, ◌*◌, ◌<◌, ◌≡◌, refl, false, List, [], ◌∷◌, Bytes, arith, length, length-take, drop, ◌==◌,
}
use ota_ws_update.Esp.{esp_ok, done}
use ota_ws_update.Backend.{Backend}
use ota_ws_update.Jsmn.{JsmnParse}
use ota_ws_update.Http.Session.{Session}
use ota_ws_update.Http.Handler.{ota_chunk_size, ota_ws_handler}
use ota_ws_update.Http.Upload.{chunk_request}
use ota_ws_update.Http.Upload.Steps.{handler-next_chunk, handler-last_chunk}
use ota_ws_update.Client.{JsonValue, number, Json, JsonLaws, Page}
use ota_ws_update.Client.Pieces.{drop-drop, length-drop}
use ota_ws_update.Client.World.{World}
use ota_ws_update.Client.Ready.{IsReady, upload-next, upload-last}
use ota_ws_update.Client.Phases.{running, page_with, IsLeft, Phase, rank, asked, ended}

module _ (be : Backend) (jsmn_parse : JsmnParse) (chunk_config : ℕ) (json : Json)
    (laws : JsonLaws json) (file : Bytes) (b b1 b2 : be.State) (bufs : ℕ)
    (ready : IsReady be jsmn_parse chunk_config file b b1 b2) where
  abbrev pub P : World be.State → Type 0
  P = Phase be jsmn_parse chunk_config json laws file b b1 b2 bufs ready

  abbrev pub rank_of : (W : World be.State) → P W → ℕ
  rank_of = rank be jsmn_parse chunk_config json laws file b b1 b2 bufs ready

  abbrev pub Left : ℕ → Bytes → List Bytes → be.State → Type 0
  Left = IsLeft be jsmn_parse chunk_config json laws file b b1 b2 bufs ready

  abbrev pub run_at : ℕ → be.State → List Bytes → Session be.State
  run_at = running be jsmn_parse chunk_config json laws file b b1 b2 bufs ready

  abbrev pub page_at : JsonValue → ℕ → Page
  page_at = page_with be jsmn_parse chunk_config json laws file b b1 b2 bufs ready

  abbrev pub n_bytes : ℕ
  n_bytes = ota_chunk_size chunk_config

  -- The last part is all that is left.
  last_length :
      (start : ℕ) (c : Bytes) (s : be.State)
      → Left start c [] s
      → (start + length c ≡ length file) × ((length c == 0) ≡ false)
  last_length start c s l = ground (arith, l.split, length-drop start file, l.inside)

  next_length :
      (start : ℕ) (c d : Bytes) (ds : List Bytes) (s : be.State)
      → Left start c (d ∷ ds) s
      → (length c ≡ n_bytes) × (start + n_bytes < length file) × ((length c == 0) ≡ false)
  next_length start c d ds s l = ground (
    arith,
    l.split,
    length-drop start file,
    length-take n_bytes (drop start file),
    l.inside,
    ready.some_chunk,
  )

  -- The part on its way is taken, and the page is asked for the next one or told of the end.
  pub sent_part :
      (start : ℕ) (c : Bytes) (cs : List Bytes) (s : be.State)
      → Left start c cs s
      → (w : Session be.State) × (ota_ws_handler be jsmn_parse chunk_config
            (chunk_request c)
            (run_at start s [])
          ≡ done esp_ok w)
        × ((p : P (record { page = page_at (number n_bytes) 1; frames = []; session = w }))
            × (rank_of (record { page = page_at (number n_bytes) 1; frames = []; session = w }) p
                ≡ 2 * length cs + 1))
  sent_part start c [] s l =
      let (s1, wrote, ends) =
        upload-last be jsmn_parse chunk_config file b b1 b2 ready c s l.takes in
      let (last, some_byte) = last_length start c s l in
      (
        _,
        handler-last_chunk be jsmn_parse chunk_config c (run_at start s []) s1 b2 some_byte refl
            last (omega (arith, ready.file_fits)) wrote ends,
        (ended refl, refl),
      )
  sent_part start c (d ∷ ds) s l =
      let (s1, wrote, others) =
        upload-next be jsmn_parse chunk_config file b b1 b2 ready c d ds s l.takes in
      let (whole, more, some_byte) = next_length start c d ds s l in
      (
        _,
        handler-next_chunk be jsmn_parse chunk_config c (run_at start s []) s1 some_byte refl
            (omega arith) (omega (arith, ready.file_fits)) wrote,
        (
          asked (start + length c) d ds s1
              (record {
                split = rw whole (rw drop-drop at l.split.2);
                inside = omega arith;
                takes = others;
              })
              refl,
          omega arith,
        ),
      )
