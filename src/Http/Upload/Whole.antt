-- ===== src/Http/Upload/Whole.antt =====
-- An update from its announcement to its end, and one that a refused chunk stops.
use ota_ws_update.Base.{
  ℕ, ◌+◌, ◌<◌, ◌≡◌, refl, true, false, List, [], ◌∷◌, ◌++◌, some, Bytes, arith, ◌==◌, codes, length,
  if◌then◌else◌,
}
use ota_ws_update.Word.{u32_mod}
use ota_ws_update.Text.{atoi}
use ota_ws_update.Esp.{EspErr, esp_ok, is_err, done, pure, bind-eq-done, passed}
use ota_ws_update.Backend.{Backend}
use ota_ws_update.Jsmn.{JsmnParse}
use ota_ws_update.Http.Message.{set_chunk_size_message, first_chunk_message, next_chunk_message}
use ota_ws_update.Http.Session.{Session}
use ota_ws_update.Http.Keys
use ota_ws_update.Http.Json.{json_to_str_parm}
use ota_ws_update.Http.TextFrame.{IsTextFrame}
use ota_ws_update.Http.Upload.Announce.{announced, handler-announced}
use ota_ws_update.Http.Handler.{filled, ota_chunk_size, Request, ota_ws_handler, serve}
use ota_ws_update.Http.Upload.{
  chunk_request, chunk_requests, total, upload, replies, all_ok, NonEmpty,
}
use ota_ws_update.Http.Upload.Steps.{
  handler-next_chunk, handler-last_chunk, handler-failed_chunk, handler-idle_chunk, failed_state,
}

positive : (n : ℕ) → (n == 0) ≡ false → 0 < n
positive n h = ground arith

nonzero : (n : ℕ) → 0 < n → (n == 0) ≡ false
nonzero n h = ground arith

-- The chunks of an update, one in each frame, that reach the announced size together.
module _ (be : Backend) (jsmn_parse : JsmnParse) (chunk_config : ℕ) where
  abbrev uploaded : Bytes → List Bytes → be.State → Session be.State → Session be.State
  uploaded c cs b w = record w {
    ota_size = 0;
    ota_start_chunk = 0;
    ota_started = 0;
    backend = b;
    sent = replies w.ota_start_chunk c cs w.sent;
  }

  serve-step :
      (req : Request) (reqs : List Request) (w w1 w2 : Session be.State) (ret : EspErr)
      (rets : List EspErr)
      → ota_ws_handler be jsmn_parse chunk_config req w ≡ done ret w1
      → serve be jsmn_parse chunk_config reqs w1 ≡ done rets w2
      → serve be jsmn_parse chunk_config (req ∷ reqs) w ≡ done (ret ∷ rets) w2
  unfolding serve
  serve-step req reqs w w1 w2 ret rets h t = rw (h, t) refl

  serve-chunks :
      (c : Bytes) (cs : List Bytes) (w : Session be.State) (b : be.State)
      → NonEmpty (c ∷ cs)
      → w.ota_started ≡ 1
      → w.ota_start_chunk + total (c ∷ cs) ≡ w.ota_size
      → w.ota_size < u32_mod
      → upload be c cs w.backend ≡ done esp_ok b
      → serve be jsmn_parse chunk_config (chunk_requests (c ∷ cs)) w
        ≡ done (all_ok (c ∷ cs)) (uploaded c cs b w)
  unfolding upload
  serve-chunks c [] w b ne s size word run =
      let write = be.write_ota_ws (length c) (some (c ++ (0 ∷ []))) w.backend in
      let (ret, b1, wrote, rest) =
        bind-eq-done write (λ ret. if is_err ret then pure ret else be.end_ota_ws) run in
      let (good, ends) = passed ret b1 be.end_ota_ws rest in
      serve-step (chunk_request c) [] w (uploaded c [] b w) (uploaded c [] b w) esp_ok []
        (handler-last_chunk be jsmn_parse chunk_config c w b1 b ne.0 s (omega arith) word
          (rw good at wrote) ends)
        (unfold serve in refl)
  serve-chunks c (d ∷ ds) w b ne s size word run =
      let write = be.write_ota_ws (length c) (some (c ++ (0 ∷ []))) w.backend in
      let (ret, b1, wrote, rest) =
        bind-eq-done write (λ ret. if is_err ret then pure ret else upload be d ds) run in
      let (good, others) = passed ret b1 (upload be d ds) rest in
      let w1 = record w {
        ota_start_chunk = w.ota_start_chunk + length c;
        backend = b1;
        sent = next_chunk_message (w.ota_start_chunk + length c) ∷ w.sent;
      } in
      serve-step (chunk_request c) (chunk_requests (d ∷ ds)) w w1 (uploaded c (d ∷ ds) b w) esp_ok
        (all_ok (d ∷ ds))
        (handler-next_chunk be jsmn_parse chunk_config c w b1 ne.0 s
          (omega (arith, positive (length d) ne.1.0)) word (rw good at wrote))
        (serve-chunks d ds w1 b ne.1 s (omega arith) word others)

  -- The frames of a client that sends on although its update has ended.
  serve-idle :
      (cs : List Bytes) (w : Session be.State)
      → NonEmpty cs
      → w.ota_started ≡ 0
      → serve be jsmn_parse chunk_config (chunk_requests cs) w ≡ done (all_ok cs) w
  unfolding serve
  serve-idle [] w ne s = refl
  serve-idle (c ∷ cs) w ne s =
      serve-step (chunk_request c) (chunk_requests cs) w w w esp_ok (all_ok cs)
        (handler-idle_chunk be jsmn_parse chunk_config c w ne.0 s) (serve-idle cs w ne.1 s)

  -- A chunk that the flash writer refuses ends the update: the handler returns the code, the flash
  -- writer is told to abort, the client gets one "otaError", and no chunk behind it reaches the
  -- flash writer.
  pub serve-refused_chunk :
      (c : Bytes) (cs : List Bytes) (w : Session be.State) (b b' : be.State) (ret aborted : EspErr)
      → NonEmpty (c ∷ cs)
      → w.ota_started ≡ 1
      → is_err ret ≡ true
      → be.write_ota_ws (length c) (some (c ++ (0 ∷ []))) w.backend ≡ done ret b
      → be.abort_ota_ws b ≡ done aborted b'
      → serve be jsmn_parse chunk_config (chunk_requests (c ∷ cs)) w
        ≡ done
            (ret ∷ all_ok cs)
            (failed_state be jsmn_parse chunk_config (codes "Error write ota") b' w)
  serve-refused_chunk c cs w b b' ret aborted ne s failed run aborts =
      let w1 = failed_state be jsmn_parse chunk_config (codes "Error write ota") b' w in
      serve-step (chunk_request c) (chunk_requests cs) w w1 w1 ret (all_ok cs)
        (handler-failed_chunk be jsmn_parse chunk_config c w b b' ret aborted ne.0 s failed run
          aborts)
        (serve-idle cs w1 ne.1 refl)

  -- An update that goes well. The client announces a size in an "otaSize" frame and sends chunks
  -- that are not empty and have that size together, each whole in a frame; the flash writer starts,
  -- and takes the chunks and the end, in this order and with no other call. Then every frame is
  -- answered with ESP_OK, the counters are zero again, the flash writer is in the state that those
  -- calls leave, and the client has got the chunk size, the offset of every chunk and "otaEnd".
  pub serve-update :
      (req : Request) (c : Bytes) (cs : List Bytes) (w : Session be.State) (b b' : be.State)
      (value : Bytes)
      → IsTextFrame req
      → (req.len == 0) ≡ false
      → ((s : Session be.State)
          → json_to_str_parm jsmn_parse (some (filled req.len req.payload)) s
            ≡ done (record { ret = esp_ok; name = Keys.ota_size_start; value = value }) s)
      → NonEmpty (c ∷ cs)
      → total (c ∷ cs) ≡ atoi value
      → atoi value < u32_mod
      → be.start_ota_ws w.backend ≡ done esp_ok b
      → upload be c cs b ≡ done esp_ok b'
      → serve be jsmn_parse chunk_config (req ∷ chunk_requests (c ∷ cs)) w
        ≡ done (esp_ok ∷ all_ok (c ∷ cs)) (record w {
          ota_size = 0;
          ota_start_chunk = 0;
          ota_started = 0;
          backend = b';
          sent = replies 0 c cs (
              first_chunk_message 0
              ∷ set_chunk_size_message (ota_chunk_size chunk_config)
              ∷ w.sent);
        })
  serve-update req c cs w b b' value t h json ne size word starts run =
      let w1 = announced chunk_config (atoi value) b w in
      serve-step req (chunk_requests (c ∷ cs)) w w1 (uploaded c cs b' w1) esp_ok (all_ok (c ∷ cs))
        (handler-announced be jsmn_parse chunk_config req w b value t h json
          (nonzero (atoi value) (omega (arith, positive (length c) ne.0))) starts)
        (serve-chunks c cs w1 b' ne refl (omega arith) word run)
