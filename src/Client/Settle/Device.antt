-- ===== src/Client/Settle/Device.antt =====
-- What the device makes of the announcement, whatever the flash writer answers.
use ota_ws_update.Base.{
  ℕ, ◌+◌, ◌*◌, ◌<◌, ◌≡◌, refl, false, [], Bytes, arith, codes, length, ◌==◌, Bool-cases, inl, inr,
}
use ota_ws_update.Text.Decimal.{print_int}
use ota_ws_update.Text.Laws.{atoi-print_int}
use ota_ws_update.Esp.{EspErr, esp_ok, is_err, is_err-esp_ok, done}
use ota_ws_update.Backend.{Backend}
use ota_ws_update.Backend.Course.{Course, Follows}
use ota_ws_update.Jsmn.{JsmnParse}
use ota_ws_update.Http.Session.{Session}
use ota_ws_update.Http.Handler.{Request, ota_ws_handler}
use ota_ws_update.Http.Upload.Announce.{announced}
use ota_ws_update.Http.Upload.Refused.{handler-refused_start}
use ota_ws_update.Http.Upload.Steps.{failed_state}
use ota_ws_update.Client.{JsonValue, Json, JsonLaws, unescaped, text_request}
use ota_ws_update.Client.Pieces.{parts}
use ota_ws_update.Client.Ready.{
  size_text, size-parsed, size-long, text_request-IsTextFrame, handler-size,
}
use ota_ws_update.Client.Replies.{receive-error}
use ota_ws_update.Client.Settle.{IsSendable, page_with, chunk_size, Phase, rank, told, closing}

module _ (be : Backend) (jsmn_parse : JsmnParse) (chunk_config : ℕ) (json : Json)
    (laws : JsonLaws json) (file : Bytes) (course : Course be.State) (follows : Follows be course)
    (sendable : IsSendable jsmn_parse chunk_config file) (bufs : ℕ) where
  -- The handler returns on a frame, and the page, which has not moved, is in a phase with less than k
  -- steps left.
  pub record Answer (k : ℕ) (n : JsonValue) (req : Request) (w : Session be.State) : Type 0 where
    pub ret : EspErr
    pub after : Session be.State
    pub run : ota_ws_handler be jsmn_parse chunk_config req w ≡ done ret after
    pub phase : Phase be chunk_config json file course bufs (record {
      page = page_with be chunk_config json file course bufs n 1;
      frames = [];
      session = after;
    })
    pub fewer : rank be chunk_config json file course bufs _ phase < k

  abbrev failed : (msg : Bytes) → be.State → Session be.State → Session be.State
  failed = failed_state be jsmn_parse chunk_config

  nonzero : (n : ℕ) → 0 < n → (n == 0) ≡ false
  nonzero n h = ground arith

  pub announced-Answer :
      (n : JsonValue) (w : Session be.State)
      → course.Before w.backend
      → w.live_bufs ≡ bufs
      → w.sent ≡ []
      → Answer
          (2 * length (parts (length file) (chunk_size be chunk_config json file course bufs) file)
            + 5)
          n
          (text_request (size_text (length file)))
          w
  unfolding unescaped
  announced-Answer n w p same_bufs none_sent =
      let (ret, b, starts, taken, refused) = follows.start_follows w.backend p in
      let value = atoi-print_int (length file) (omega (arith, sendable.file_fits)) in
      elim (Bool-cases (is_err ret)) [
        | inl bad ↦
            let (aborted, b', aborts, over) = follows.abort_follows b (refused bad) in
            record {
              ret = ret;
              after = failed (codes "Error start ota") b' w;
              run =
                  handler-refused_start be jsmn_parse chunk_config
                    (text_request (size_text (length file))) w b b' (print_int (length file)) ret
                    aborted (text_request-IsTextFrame _) (size-long (length file))
                    (λ s. size-parsed jsmn_parse (length file) s sendable.found)
                    (rw value (nonzero (length file) sendable.some_byte)) bad starts aborts;
              phase =
                  closing n _ b'
                    (λ page.
                      receive-error json laws page (codes "Error start ota") (omega arith) refl)
                    (inr (b, aborted, aborts)) (inr over) (rw (same_bufs, none_sent) refl);
              fewer = omega arith;
            }
        | inr good ↦ record {
          ret = esp_ok;
          after = announced chunk_config (length file) b w;
          run =
              handler-size be jsmn_parse chunk_config (length file) w b sendable.found
                sendable.some_byte sendable.file_fits (rw (is_err-esp_ok ret good) at starts);
          phase = told n b (taken good) (rw (same_bufs, none_sent) refl);
          fewer = omega arith;
        }
      ]
