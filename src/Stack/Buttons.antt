-- ===== src/Stack/Buttons.antt =====
-- The page's other buttons and the device: an update is cancelled, an image is confirmed or given up.
use ota_ws_update.Base.{
  ℕ, ◌+◌, ◌≡◌, refl, true, false, Option, List, none, some, [], ◌∷◌, arith, codes, ◌==◌,
}
use ota_ws_update.Esp.{EspErr, esp_ok, Outcome, done, reboot}
use ota_ws_update.Backend.{Backend}
use ota_ws_update.Jsmn.{JsmnParse}
use ota_ws_update.Device.{OtaApi}
use ota_ws_update.Http.Keys
use ota_ws_update.Http.Message.{error_message, string_pair}
use ota_ws_update.Http.Message.Fits.{error_whole}
use ota_ws_update.Http.Session.{Session}
use ota_ws_update.Http.Handler.{serve}
use ota_ws_update.Http.Cancel.{ota_ws_handler-cancel}
use ota_ws_update.Plain.{EspOta, plain}
use ota_ws_update.Client.{
  Json, JsonLaws, Page, string, start_cancel, verify_app, rollback, unescaped, receive_ws_data,
}
use ota_ws_update.Client.Ready.{text_request-IsTextFrame}
use ota_ws_update.Client.Commands.{Finds, command_request, command-long, command-parsed}
use ota_ws_update.Stack.Rollback.{plain_confirm, plain_rollback, plain_rollback-refused}

-- A click on the button while an update runs.
pub start_cancel-cancel :
    (json : Json) (laws : JsonLaws json) (page : Page)
    → (page.ota_started == 0) ≡ false
    → start_cancel json page
      ≡ (record page { ota_started = 0 }, command_request Keys.ota_cancel (codes "Cancel") ∷ [])
unfolding start_cancel unescaped
start_cancel-cancel json laws page runs =
    let text = laws.stringify_string Keys.ota_cancel (codes "Cancel") refl refl in
    ground (arith, text)

-- What the page makes of the device's answer.
receive-cancelled :
    (json : Json) (laws : JsonLaws json) (page : Page)
    → receive_ws_data json (error_message Keys.ota_cancel (codes "Cancel command")) page
      ≡ (record page { ota_started = 0 }, [])
unfolding receive_ws_data unescaped
receive-cancelled json laws page =
    let parses : json.parse (string_pair Keys.ota_cancel (codes "Cancel command") (codes "}"))
        ≡ some (Keys.ota_cancel, string (codes "Cancel command")) =
      laws.parse_string Keys.ota_cancel (codes "Cancel command") 0 refl refl in
    rw (error_whole Keys.ota_cancel (codes "Cancel command") (omega arith), parses) refl

-- A click on the button while an update runs, where the tokenizer finds the tokens of the command and
-- the flash writer's abort returns. The page shows no update any more and sends one frame; the device
-- answers that with ESP_OK, has told the flash writer to abort once, and has its counters at zero; and
-- the page, given the device's answer, stays as it is and sends nothing.
pub start_cancel-cancels :
    (be : Backend) (jsmn_parse : JsmnParse) (chunk_config : ℕ) (json : Json) (laws : JsonLaws json)
    (page : Page) (w : Session be.State) (ret : EspErr) (b : be.State)
    → (page.ota_started == 0) ≡ false
    → Finds jsmn_parse Keys.ota_cancel (codes "Cancel")
    → be.abort_ota_ws w.backend ≡ done ret b
    → let (clicked, frames) = start_cancel json page in
      (clicked ≡ record page { ota_started = 0 })
      × (serve be jsmn_parse chunk_config frames w
          ≡ done (esp_ok ∷ []) (record w {
            ota_size = 0;
            ota_start_chunk = 0;
            ota_started = 0;
            backend = b;
            sent = error_message Keys.ota_cancel (codes "Cancel command") ∷ w.sent;
          }))
      × (receive_ws_data json (error_message Keys.ota_cancel (codes "Cancel command")) clicked
          ≡ (clicked, []))
unfolding serve
start_cancel-cancels be jsmn_parse chunk_config json laws page w ret b runs found aborts =
    let value = codes "Cancel" in
    let req = command_request Keys.ota_cancel value in
    let run =
      ota_ws_handler-cancel be jsmn_parse chunk_config req w value (text_request-IsTextFrame _)
        (command-long Keys.ota_cancel value)
        (λ s.
          command-parsed jsmn_parse Keys.ota_cancel value s refl refl (omega arith) (omega arith)
            found)
        ret b aborts in
    rw (start_cancel-cancel json laws page runs)
      (refl, rw run refl, receive-cancelled json laws (record page { ota_started = 0 }))

-- What becomes of the device where it is told to give up the running image: the chip restarts, or the
-- handler returns the error.
abbrev pub given_up :
    {Dev : Type 0}
    → Session (EspOta Dev)
    → Option EspErr × Dev
    → Outcome (Session (EspOta Dev)) (List EspErr)
given_up w (none, d) =
    reboot (record w { backend = record (w.backend) { dev = d }; live_bufs = w.live_bufs + 1 })
given_up w (some err, d) = done (err ∷ []) (record w { backend = record (w.backend) { dev = d } })

module _ (api : OtaApi) (jsmn_parse : JsmnParse) (chunk_config : ℕ) (json : Json)
    (laws : JsonLaws json) (w : Session (EspOta api.Dev)) where
  rollback-gives_up :
      (r : Option EspErr × api.Dev)
      → Finds jsmn_parse Keys.ota_process_rollback (codes "true")
      → api.esp_ota_mark_app_invalid_rollback_and_reboot w.backend.dev ≡ r
      → serve
          (plain api true)
          jsmn_parse
          chunk_config
          (command_request Keys.ota_process_rollback (codes "true") ∷ [])
          w
        ≡ given_up w r
  unfolding serve
  rollback-gives_up (none, d) found marks =
      let key = Keys.ota_process_rollback in
      rw
        (plain_rollback api jsmn_parse chunk_config (command_request key (codes "true")) w
          (codes "true") (text_request-IsTextFrame _) (command-long key (codes "true"))
          (λ s.
            command-parsed jsmn_parse key (codes "true") s refl refl (omega arith) (omega arith)
              found)
          d refl marks)
        refl
  rollback-gives_up (some err, d) found marks =
      let key = Keys.ota_process_rollback in
      rw
        (plain_rollback-refused api jsmn_parse chunk_config (command_request key (codes "true")) w
          (codes "true") (text_request-IsTextFrame _) (command-long key (codes "true"))
          (λ s.
            command-parsed jsmn_parse key (codes "true") s refl refl (omega arith) (omega arith)
              found)
          err d refl marks)
        refl

  -- A click on "otaVerifyApp" and one on "otaRollback", with the plain flash writer where rollback is
  -- configured and the tokenizer finds the tokens of the two commands. The first marks the running image
  -- as valid and changes nothing else. The second gives the running image up: where the device restarts
  -- into the old image the handler does not return, and where it cannot, the handler returns the
  -- device's error and the session stays as it is.
  pub rollback-decides :
      Finds jsmn_parse Keys.ota_process_rollback (codes "false")
      → Finds jsmn_parse Keys.ota_process_rollback (codes "true")
      → let r = api.esp_ota_mark_app_valid_cancel_rollback w.backend.dev in
        (serve (plain api true) jsmn_parse chunk_config (verify_app json) w
          ≡ done (r.0 ∷ []) (record w { backend = record (w.backend) { dev = r.1 } }))
        × (serve (plain api true) jsmn_parse chunk_config (rollback json) w
            ≡ given_up w (api.esp_ota_mark_app_invalid_rollback_and_reboot w.backend.dev))
  unfolding serve verify_app rollback unescaped
  rollback-decides found_false found_true =
      let key = Keys.ota_process_rollback in
      let valid =
        plain_confirm api jsmn_parse chunk_config (command_request key (codes "false")) w
          (codes "false") (text_request-IsTextFrame _) (command-long key (codes "false"))
          (λ s.
            command-parsed jsmn_parse key (codes "false") s refl refl (omega arith) (omega arith)
              found_false)
          (λ e. cc) in
      let text_false = laws.stringify_string key (codes "false") refl refl in
      let text_true = laws.stringify_string key (codes "true") refl refl in
      (
        rw (text_false, valid) refl,
        rw text_true (
            rollback-gives_up (api.esp_ota_mark_app_invalid_rollback_and_reboot w.backend.dev)
              found_true refl),
      )
