-- ===== src/Stack/Page.antt =====
-- The page and the device with each flash writer: what the device boots after an update from the page.
use ota_ws_update.Base.{
  ℕ, ◌+◌, ◌*◌, ◌-◌, ◌≤◌, ◌≡◌, ◌∙◌, Bool, some, [], Bytes, arith, length, take, ◌∷◌,
}
use ota_ws_update.Jsmn.{JsmnParse}
use ota_ws_update.Esp.{esp_ok}
use ota_ws_update.Device.{OtaApi, OtaLaws, RefusesNull}
use ota_ws_update.Http.Session.{Session}
use ota_ws_update.Http.Handler.{ota_chunk_size}
use ota_ws_update.Plain.{EspOta, plain}
use ota_ws_update.Plain.Image.{update-image}
use ota_ws_update.EncryptedImg.{EncryptedImg}
use ota_ws_update.PreEncrypted.{PreEncOta}
use ota_ws_update.PreEncrypted.Output.{DecryptLaws}
use ota_ws_update.PreEncrypted.Writer.{pre_encrypted}
use ota_ws_update.PreEncrypted.Image.{decrypted_image, context_after, update-decrypted_image}
use ota_ws_update.Client.{number, Json, JsonLaws, Page, start_cancel}
use ota_ws_update.Client.Pieces.{parts, parts-IsSplit, concat-IsSplit}
use ota_ws_update.Client.World.{World, Run}
use ota_ws_update.Client.Ready.{IsReady}
use ota_ws_update.Client.Complete.{start_cancel-completes}

-- The state of page and device behind an update.
abbrev pub updated : {B : Type 0} → ℕ → Page → Session B → B → World B
updated n page w b = record {
  page = record page { ota_set_chunk_size = number n; ota_started = 0 };
  frames = [];
  session = record w { ota_size = 0; ota_start_chunk = 0; ota_started = 0; backend = b; sent = [] };
}

-- A click on the button while no update runs, on a page that has a file, with the plain flash writer on
-- a device that does what ESP-IDF documents, has partition p for the next update, and has no text on its
-- way to the page. Chunk size and file are not empty and below 2 ^ 31, the tokenizer finds the tokens of
-- the announcement, and the flash writer's start, writes and end succeed on the file's parts. Then every
-- run of page and device can be continued to the same number of steps and the same end, where nothing
-- is on its way, the device boots from p, and p holds the file.
pub plain_page_update :
    (api : OtaApi) (laws : OtaLaws api) (rollback_enable : Bool) (jsmn_parse : JsmnParse)
    (chunk_config : ℕ) (json : Json) (json_laws : JsonLaws json) (p : ℕ) (page : Page)
    (file : Bytes) (w : Session (EspOta api.Dev)) (b1 b2 : EspOta api.Dev) (k : ℕ)
    (V : World (EspOta api.Dev))
    → page.ota_data ≡ some file
    → page.ota_started ≡ 0
    → w.sent ≡ []
    → IsReady (plain api rollback_enable) jsmn_parse chunk_config file w.backend b1 b2
    → api.esp_ota_get_next_update_partition w.backend.dev ≡ some p
    → (let (clicked, frames) = start_cancel json page in
        Run
          (plain api rollback_enable)
          jsmn_parse
          chunk_config
          json
          (record { page = clicked; frames = frames; session = w })
          k
          V)
    → let n = ota_chunk_size chunk_config in
      let steps = 2 * length (parts (length file) n file) + 5 in
      (k ≤ steps)
      × Run
          (plain api rollback_enable)
          jsmn_parse
          chunk_config
          json
          V
          (steps - k)
          (updated n page w b2)
      × (api.esp_ota_get_boot_partition b2.dev ≡ some p)
      × (laws.contents p b2.dev ≡ file)
plain_page_update api laws r jsmn_parse chunk_config json json_laws p page file w b1 b2 k V read
      idle none_sent ready next run =
    let n = ota_chunk_size chunk_config in
    let (bound, rest) =
      start_cancel-completes (plain api r) jsmn_parse chunk_config json json_laws page file w b1 b2
        k V read idle none_sent ready run in
    let (boots, holds) =
      update-image api laws r p (take n file) (parts (length file) n file) w.backend b1 b2 next
        ready.starts ready.takes in
    let split = parts-IsSplit (length file) n file ready.some_chunk ready.some_byte (omega arith) in
    (
      bound,
      rest,
      boots,
      holds ∙ concat-IsSplit n file (take n file) (parts (length file) n file) split,
    )

-- A click on the button while no update runs, on a page that has a file, with the flash writer for
-- encrypted images. The device does what ESP-IDF documents, refuses to write from NULL, has partition p
-- for the next update and no text on its way to the page; the decryption library does what `DecryptLaws`
-- says; chunk size and file are
-- not empty and below 2 ^ 31, the tokenizer finds the tokens of the announcement, and the flash writer's
-- start, writes and end succeed on the file's parts. Then every run of page and device can be continued
-- to the same number of steps and the same end, where nothing is on its way, the device boots from p,
-- and p holds what the library has made of the file's parts, from the context that it gave for the
-- private key; and it has accepted the image at its end.
pub encrypted_page_update :
    (api : OtaApi) (ota_laws : OtaLaws api) (lib : EncryptedImg) (laws : DecryptLaws lib)
    (rollback_enable : Bool) (rsa_private_pem : Bytes) (jsmn_parse : JsmnParse) (chunk_config : ℕ)
    (json : Json) (json_laws : JsonLaws json) (p : ℕ) (page : Page) (file : Bytes)
    (w : Session (PreEncOta api.Dev lib.Ctx)) (b1 b2 : PreEncOta api.Dev lib.Ctx) (k : ℕ)
    (V : World (PreEncOta api.Dev lib.Ctx))
    → RefusesNull api
    → page.ota_data ≡ some file
    → page.ota_started ≡ 0
    → w.sent ≡ []
    → IsReady
        (pre_encrypted api lib rollback_enable rsa_private_pem)
        jsmn_parse
        chunk_config
        file
        w.backend
        b1
        b2
    → api.esp_ota_get_next_update_partition w.backend.dev ≡ some p
    → (let (clicked, frames) = start_cancel json page in
        Run
          (pre_encrypted api lib rollback_enable rsa_private_pem)
          jsmn_parse
          chunk_config
          json
          (record { page = clicked; frames = frames; session = w })
          k
          V)
    → let n = ota_chunk_size chunk_config in
      let pieces = take n file ∷ parts (length file) n file in
      let steps = 2 * length (parts (length file) n file) + 5 in
      (k ≤ steps)
      × Run
          (pre_encrypted api lib rollback_enable rsa_private_pem)
          jsmn_parse
          chunk_config
          json
          V
          (steps - k)
          (updated n page w b2)
      × (api.esp_ota_get_boot_partition b2.dev ≡ some p)
      × (ctx : lib.Ctx) × (lib.decrypt_start rsa_private_pem w.backend.heap.last ≡ some ctx)
      × (ota_laws.contents p b2.dev ≡ decrypted_image lib ctx pieces)
      × (lib.decrypt_end (context_after lib ctx pieces) ≡ esp_ok)
encrypted_page_update api ota_laws lib laws r pem jsmn_parse chunk_config json json_laws p page file
      w b1 b2 k V refuses read idle none_sent ready next run =
    let n = ota_chunk_size chunk_config in
    let (bound, rest) =
      start_cancel-completes (pre_encrypted api lib r pem) jsmn_parse chunk_config json json_laws
        page file w b1 b2 k V read idle none_sent ready run in
    let (ctx, made, boots, holds, accepted) =
      update-decrypted_image api ota_laws lib laws r pem p (take n file)
        (parts (length file) n file) w.backend b1 b2 refuses next ready.starts ready.takes in
    (bound, rest, boots, ctx, made, holds, accepted)
