-- ===== src/Stack/Race.antt =====
-- An update that is cancelled and started again while the page is being asked for a part.
use ota_ws_update.Base.{
  ℕ, ◌+◌, ◌<◌, ◌≡◌, refl, some, List, [], ◌∷◌, ◌++◌, Bytes, arith, codes, length, take, drop,
}
use ota_ws_update.Word.{sign_bit}
use ota_ws_update.Esp.{EspErr, esp_ok, done}
use ota_ws_update.Backend.{Backend}
use ota_ws_update.Jsmn.{JsmnParse}
use ota_ws_update.Http.Keys
use ota_ws_update.Http.Message.{next_chunk_message}
use ota_ws_update.Http.Session.{Session}
use ota_ws_update.Http.Handler.{Request}
use ota_ws_update.Http.Cancel.{cancelled, ota_ws_handler-cancel}
use ota_ws_update.Http.Upload.{chunk_request}
use ota_ws_update.Http.Upload.Announce.{announced}
use ota_ws_update.Http.Upload.Steps.{handler-next_chunk}
use ota_ws_update.Client.{Json, JsonLaws, Page, number, text_request}
use ota_ws_update.Client.World.{World, device, client}
use ota_ws_update.Client.Acts.{Act, Acts, steps, clicks, none_yet, more}
use ota_ws_update.Client.Ready.{FindsSize, size_text, handler-size, text_request-IsTextFrame}
use ota_ws_update.Client.Replies.{receive-next_chunk}
use ota_ws_update.Client.Commands.{Finds, command_request, command-long, command-parsed}
use ota_ws_update.Client.Complete.{start_cancel-size}
use ota_ws_update.Stack.Buttons.{start_cancel-cancel}

module _ (be : Backend) (jsmn_parse : JsmnParse) (chunk_config : ℕ) (json : Json)
    (laws : JsonLaws json) (file : Bytes) (n start : ℕ) (w : Session be.State) (ret : EspErr)
    (b1 b2 b3 : be.State) where
  abbrev page_at : ℕ → Page
  page_at flag = record { ota_data = some file; ota_set_chunk_size = number n; ota_started = flag }

  -- The page is in an update, and this is on its way to the device.
  abbrev world_at : ℕ → List Request → Session be.State → World be.State
  world_at flag frames s = record { page = page_at flag; frames = frames; session = s }

  abbrev cancel : Request
  cancel = command_request Keys.ota_cancel (codes "Cancel")

  abbrev announce : Request
  announce = text_request (size_text (length file))

  abbrev part : Bytes
  part = take n (drop start file)

  -- Both clicks, before the page is given the question for the part.
  clicked_twice :
      0 < length file
      → length file < sign_bit
      → Acts be jsmn_parse chunk_config json
          (world_at 1 [] w)
          (world_at 1 (cancel ∷ announce ∷ []) w)
  clicked_twice some_byte fits =
      let first : Act be jsmn_parse chunk_config json (world_at 1 [] w)
          (world_at 0 (cancel ∷ []) w) =
        clicks (rw (start_cancel-cancel json laws (page_at 1) refl) refl) in
      let second : Act be jsmn_parse chunk_config json (world_at 0 (cancel ∷ []) w)
          (world_at 1 (cancel ∷ announce ∷ []) w) =
        clicks (rw (start_cancel-size json laws (page_at 0) file refl refl some_byte fits) refl) in
      more (more none_yet first) second

  -- The device behind each of the three frames.
  abbrev asked_nothing : Session be.State
  asked_nothing = record w { sent = [] }

  abbrev given_up : Session be.State
  given_up = cancelled b1 asked_nothing

  abbrev begun_again : Session be.State
  begun_again = announced chunk_config (length file) b2 given_up

  abbrev misled : Session be.State
  misled = record begun_again {
    ota_start_chunk = 0 + length part;
    backend = b3;
    sent = next_chunk_message (0 + length part) ∷ begun_again.sent;
  }

  -- The page answers the question that was on its way.
  stale_part :
      start < sign_bit
      → w.sent ≡ next_chunk_message start ∷ []
      → Act be jsmn_parse chunk_config json
          (world_at 1 (cancel ∷ announce ∷ []) w)
          (world_at 1 (cancel ∷ announce ∷ chunk_request part ∷ []) asked_nothing)
  stale_part fits asked = steps (
      client (next_chunk_message start) [] asked
        (rw (receive-next_chunk json laws (page_at 1) start n file fits refl refl) refl))

  -- The update of a file that has a part behind its first is running, and the device has asked for the
  -- part at `start`; the tokenizer finds the tokens of both commands, and the flash writer takes an
  -- abort, a start and that part. Then the user may cancel the update and start it again before the
  -- page is given the question, and page and device may come to a state in which both are in the new
  -- update and the flash writer has been given, as its first chunk, the part at `start`.
  pub restart-stale_part :
      0 < length part
      → length part < length file
      → length file < sign_bit
      → start < sign_bit
      → w.sent ≡ next_chunk_message start ∷ []
      → Finds jsmn_parse Keys.ota_cancel (codes "Cancel")
      → FindsSize jsmn_parse (length file)
      → be.abort_ota_ws w.backend ≡ done ret b1
      → be.start_ota_ws b1 ≡ done esp_ok b2
      → be.write_ota_ws (length part) (some (part ++ (0 ∷ []))) b2 ≡ done esp_ok b3
      → (V : World be.State) × Acts be jsmn_parse chunk_config json (world_at 1 [] w) V
        × (V.page.ota_started ≡ 1)
        × (V.session.ota_started ≡ 1)
        × (V.session.ota_size ≡ length file)
        × (V.session.ota_start_chunk ≡ length part)
        × (V.session.backend ≡ b3)
  restart-stale_part some_byte shorter fits start_fits asked finds_cancel finds_size aborts starts
        takes =
      let value = codes "Cancel" in
      let cancel_runs =
        ota_ws_handler-cancel be jsmn_parse chunk_config cancel asked_nothing value
          (text_request-IsTextFrame _) (command-long Keys.ota_cancel value)
          (λ s.
            command-parsed jsmn_parse Keys.ota_cancel value s refl refl (omega arith) (omega arith)
              finds_cancel)
          ret b1 aborts in
      let size_runs =
        handler-size be jsmn_parse chunk_config (length file) given_up b2 finds_size (omega arith)
          fits starts in
      let part_runs =
        handler-next_chunk be jsmn_parse chunk_config part begun_again b3 (ground arith) refl
          (omega arith) (omega arith) takes in
      let W2 = world_at 1 (announce ∷ chunk_request part ∷ []) given_up in
      let W3 = world_at 1 (chunk_request part ∷ []) begun_again in
      let W4 = world_at 1 [] misled in
      let first : Act be jsmn_parse chunk_config json
          (world_at 1 (cancel ∷ announce ∷ chunk_request part ∷ []) asked_nothing) W2 =
        steps (
          device cancel (announce ∷ chunk_request part ∷ []) esp_ok given_up refl cancel_runs
            refl) in
      let second : Act be jsmn_parse chunk_config json W2 W3 =
        steps (device announce (chunk_request part ∷ []) esp_ok begun_again refl size_runs refl) in
      let third : Act be jsmn_parse chunk_config json W3 W4 =
        steps (device (chunk_request part) [] esp_ok misled refl part_runs refl) in
      let clicked = clicked_twice (omega arith) fits in
      (
        W4,
        more (more (more (more clicked (stale_part start_fits asked)) first) second) third,
        refl,
        refl,
        refl,
        omega arith,
        refl,
      )
