-- ===== src/Stack.antt =====
-- The handler linked with a flash writer: a whole update of a plain image, and the cancel command
-- after an update of an encrypted one.
pub mod Rollback
pub mod Page
pub mod Buttons
pub mod Race
pub mod Outcome
pub mod Encrypted
pub mod Boot
use ota_ws_update.Base.{ℕ, ◌<◌, ◌≡◌, Bool, false, some, List, ◌∷◌, Bytes, ◌==◌}
use ota_ws_update.Word.{u32_mod}
use ota_ws_update.Text.{atoi}
use ota_ws_update.Esp.{EspErr, esp_ok, done, crash, use_after_free}
use ota_ws_update.Jsmn.{JsmnParse}
use ota_ws_update.Device.{OtaApi, OtaLaws}
use ota_ws_update.EncryptedImg.{EncryptedImg}
use ota_ws_update.Http.Keys
use ota_ws_update.Http.Session.{Session}
use ota_ws_update.Http.Json.{json_to_str_parm}
use ota_ws_update.Http.TextFrame.{IsTextFrame}
use ota_ws_update.Http.Handler.{Request, filled, ota_ws_handler, serve}
use ota_ws_update.Http.Cancel.{ota_ws_handler-cancel_crash}
use ota_ws_update.Http.Upload.{chunk_requests, total, upload, all_ok, NonEmpty}
use ota_ws_update.Http.Upload.Whole.{serve-update}
use ota_ws_update.Plain.{EspOta, start_ota_ws, plain}
use ota_ws_update.Plain.Image.{concat, update-image}
use ota_ws_update.PreEncrypted.{PreEncOta}
use ota_ws_update.PreEncrypted.Abort.{IsOwned}
use ota_ws_update.PreEncrypted.End.{end_ota_ws-then_abort}
use ota_ws_update.PreEncrypted.Writer.{end_ota_ws, pre_encrypted}

-- The handler with the plain flash writer. A size is announced and chunks that are not empty and have
-- this size together arrive, each whole in a frame; the device has partition p for the next update
-- and does what ESP-IDF documents, and the flash writer's start, its writes and its end succeed. Then
-- every frame is answered with ESP_OK, the device boots from p, and p holds the chunks in order.
pub plain_update :
    (api : OtaApi) (laws : OtaLaws api) (rollback_enable : Bool) (jsmn_parse : JsmnParse)
    (chunk_config p : ℕ) (req : Request) (c : Bytes) (cs : List Bytes)
    (w : Session (EspOta api.Dev)) (b b' : EspOta api.Dev) (value : Bytes)
    → IsTextFrame req
    → (req.len == 0) ≡ false
    → ((s : Session (EspOta api.Dev))
        → json_to_str_parm jsmn_parse (some (filled req.len req.payload)) s
          ≡ done (record { ret = esp_ok; name = Keys.ota_size_start; value = value }) s)
    → NonEmpty (c ∷ cs)
    → total (c ∷ cs) ≡ atoi value
    → atoi value < u32_mod
    → api.esp_ota_get_next_update_partition w.backend.dev ≡ some p
    → start_ota_ws api rollback_enable w.backend ≡ done esp_ok b
    → upload (plain api rollback_enable) c cs b ≡ done esp_ok b'
    → (w' : Session (EspOta api.Dev)) × (serve
          (plain api rollback_enable)
          jsmn_parse
          chunk_config
          (req ∷ chunk_requests (c ∷ cs))
          w
        ≡ done (esp_ok ∷ all_ok (c ∷ cs)) w')
      × (api.esp_ota_get_boot_partition w'.backend.dev ≡ some p)
      × (laws.contents p w'.backend.dev ≡ concat (c ∷ cs))
plain_update api laws r jsmn_parse chunk_config p req c cs w b b' value t h json ne size word next
      starts run =
    let served =
      serve-update (plain api r) jsmn_parse chunk_config req c cs w b b' value t h json ne size word
        starts run in
    let (boots, holds) = update-image api laws r p c cs w.backend b b' next starts run in
    (_, served, boots, holds)

-- The handler with the flash writer for encrypted images. Once `end_ota_ws` has returned, on a handle
-- that was allocated, an "otaCancel" frame makes the handler use the freed handle.
pub cancel_after_update :
    (api : OtaApi) (lib : EncryptedImg) (rollback_enable : Bool) (rsa_private_pem : Bytes)
    (jsmn_parse : JsmnParse) (chunk_config : ℕ) (req : Request) (value : Bytes) (ret : EspErr)
    (s : PreEncOta api.Dev lib.Ctx) (w : Session (PreEncOta api.Dev lib.Ctx))
    → IsTextFrame req
    → (req.len == 0) ≡ false
    → ((v : Session (PreEncOta api.Dev lib.Ctx))
        → json_to_str_parm jsmn_parse (some (filled req.len req.payload)) v
          ≡ done (record { ret = esp_ok; name = Keys.ota_cancel; value = value }) v)
    → IsOwned s
    → (s.enc_handle == 0) ≡ false
    → end_ota_ws api lib rollback_enable rsa_private_pem s ≡ done ret w.backend
    → ota_ws_handler
        (pre_encrypted api lib rollback_enable rsa_private_pem)
        jsmn_parse
        chunk_config
        req
        w
      ≡ crash use_after_free
cancel_after_update api lib r pem jsmn_parse chunk_config req value ret s w t h json o address
      ends =
    ota_ws_handler-cancel_crash (pre_encrypted api lib r pem) jsmn_parse chunk_config req w value t
      h json use_after_free (end_ota_ws-then_abort api lib r pem s w.backend ret o address ends).1
