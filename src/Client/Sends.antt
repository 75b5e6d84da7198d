-- ===== src/Client/Sends.antt =====
-- The frames that the page sends on a click and on a text of the device.
use ota_ws_update.Base.{
  ◌+◌, ◌<◌, ◌≡◌, refl, inl, inr, true, false, Option, none, some, List, Bytes, arith, codes, length,
  ◌==◌, if◌then◌else◌, Bool-cases,
}
use ota_ws_update.Word.{sign_bit}
use ota_ws_update.Jsmn.{JsmnParse}
use ota_ws_update.Http.Keys
use ota_ws_update.Http.Handler.{Request}
use ota_ws_update.Http.Connection.{IsTame, AllReqs}
use ota_ws_update.Client.{
  Json, JsonLaws, JsonValue, Page, text_request, unescaped, start_cancel, verify_app, rollback,
  restart, receive_ws_data, received_text, received_object, get_chunk, string,
}
use ota_ws_update.Client.Commands.{Finds}
use ota_ws_update.Base.{lacks}
use ota_ws_update.Client.Tame.{KnowsPage, size-IsTame, command-IsTame, chunk-IsTame}

-- A file that is small enough for an `int`.
abbrev pub Fits : Option Bytes → Type 0
Fits none = Unit
Fits (some bytes) = length bytes < sign_bit

module _ (jsmn_parse : JsmnParse) (knows : KnowsPage jsmn_parse) (json : Json)
    (json_laws : JsonLaws json) where
  abbrev pub Sends : Page × List Request → Option Bytes → Type 0
  Sends (page, frames) kept = AllReqs (IsTame jsmn_parse) frames × (page.ota_data ≡ kept)

  string-IsTame :
      (name value : Bytes)
      → unescaped name ≡ true
      → unescaped value ≡ true
      → lacks 0 name ≡ true
      → lacks 0 value ≡ true
      → length name + length value < 30
      → Finds jsmn_parse name value
      → IsTame jsmn_parse (text_request (json.stringify name (string value)))
  string-IsTame name value hn hv zn zv short found =
      rw (json_laws.stringify_string name value hn hv)
        (command-IsTame jsmn_parse knows name value zn zv short found)

  cancel-IsTame :
      IsTame jsmn_parse (text_request (json.stringify Keys.ota_cancel (string (codes "Cancel"))))
  unfolding unescaped
  cancel-IsTame =
      string-IsTame Keys.ota_cancel (codes "Cancel") refl refl refl refl (omega arith) knows.cancel

  pub verify_app-IsTame : AllReqs (IsTame jsmn_parse) (verify_app json)
  unfolding verify_app unescaped
  verify_app-IsTame = (
    string-IsTame Keys.ota_process_rollback (codes "false") refl refl refl refl (omega arith)
        knows.verify,
    tt,
  )

  pub rollback-IsTame : AllReqs (IsTame jsmn_parse) (rollback json)
  unfolding rollback unescaped
  rollback-IsTame = (
    string-IsTame Keys.ota_process_rollback (codes "true") refl refl refl refl (omega arith)
        knows.roll_back,
    tt,
  )

  pub restart-IsTame : AllReqs (IsTame jsmn_parse) (restart json)
  unfolding restart unescaped
  restart-IsTame = (
    string-IsTame Keys.ota_restart_esp (codes "restart") refl refl refl refl (omega arith)
        knows.restart,
    tt,
  )

  -- Behind a click on the button, for each file that there can be.
  pub started-Sends :
      (page : Page) (file : Option Bytes)
      → Fits file
      → page.ota_data ≡ file
      → Sends (start_cancel json page) file
  unfolding start_cancel unescaped
  started-Sends page none fits e = rw e ((cancel-IsTame, tt), refl)
  started-Sends page (some bytes) fits e =
      elim (Bool-cases (if length bytes == 0 then false else page.ota_started == 0)) [
        | inl idle ↦
            rw (e, idle, json_laws.stringify_number Keys.ota_size_start (length bytes) refl fits)
              ((size-IsTame jsmn_parse knows (length bytes) fits, tt), refl)
        | inr busy ↦ rw (e, busy) ((cancel-IsTame, tt), refl)
      ]

  get_chunk-Sends :
      (from : JsonValue) (page : Page) (file : Option Bytes)
      → page.ota_data ≡ file
      → Sends (get_chunk json from page) file
  unfolding get_chunk
  get_chunk-Sends from page none e = rw e (tt, refl)
  get_chunk-Sends from page (some bytes) e = rw e ((chunk-IsTame jsmn_parse knows _, tt), refl)

  received_object-Sends :
      (name : Bytes) (value : JsonValue) (page : Page)
      → Sends (received_object json name value page) page.ota_data
  unfolding received_object
  received_object-Sends name value page =
      let chunk = get_chunk-Sends value page page.ota_data refl in ground (arith, chunk)

  received_text-Sends :
      (parsed : Option (Bytes × JsonValue)) (page : Page)
      → Sends (received_text json parsed page) page.ota_data
  unfolding received_text
  received_text-Sends none page = (tt, refl)
  received_text-Sends (some (name, value)) page = received_object-Sends name value page

  pub receive_ws_data-Sends :
      (bytes : Bytes) (page : Page) → Sends (receive_ws_data json bytes page) page.ota_data
  unfolding receive_ws_data
  receive_ws_data-Sends bytes page = received_text-Sends (json.parse bytes) page
