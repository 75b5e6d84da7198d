-- ===== src/Stack/Outcome.antt =====
-- source/ota_ws_update.html and source/ota_ws_update_http.c with source/ota_ws_update_esp.c: what the
-- device boots after an update from the page, also where a call of the update is refused.
use ota_ws_update.Base.{
  ℕ, ◌+◌, ◌*◌, ◌≤◌, ◌≡◌, refl, ◌∙◌, ◌⊎◌, Bool, Option, some, [], ◌∷◌, ◌++◌, Bytes, arith, length,
  length-append, take-append_length,
}
use mathlib.Core.Path.{subst}
use ota_ws_update.Esp.{esp_ok, is_err-esp_ok, done}
use ota_ws_update.Jsmn.{JsmnParse}
use ota_ws_update.Backend.Course.{Course, Follows, Tells}
use ota_ws_update.Device.{OtaApi, OtaLaws, BootLaws}
use ota_ws_update.Plain.{EspOta, plain, start_ota_ws, write_ota_ws, end_ota_ws}
use ota_ws_update.Plain.Image.{start-OnTarget, end_lem}
use ota_ws_update.Plain.Boot.{boot, On, start-boot, write-boot, write-On, end-boot, abort-boot}
use ota_ws_update.Plain.Returns.{answers, start_returns, write_returns, end_returns, abort_returns}
use ota_ws_update.Http.Session.{Session}
use ota_ws_update.Http.Handler.{ota_chunk_size}
use ota_ws_update.Client.{Json, JsonLaws, Page, start_cancel}
use ota_ws_update.Client.Pieces.{parts}
use ota_ws_update.Client.World.{World, Run}
use ota_ws_update.Client.Settle.{IsSendable, IsSettled}
use ota_ws_update.Client.Settle.Ends.{start_cancel-finishes}

module _ (api : OtaApi) (laws : OtaLaws api) (boot_laws : BootLaws api laws)
    (rollback_enable : Bool) (p : ℕ) (q : Option ℕ) where
  abbrev S : Type 0
  S = EspOta api.Dev

  abbrev booted : S → Option ℕ
  booted = boot api laws boot_laws rollback_enable

  abbrev OnPartition : Bytes → S → Type 0
  OnPartition = On api laws boot_laws rollback_enable p

  -- The device boots from q, until it boots from p, which holds what was taken.
  abbrev pub plain_course : Course S
  plain_course = record {
    Before = λ s. (booted s ≡ q) × (api.esp_ota_get_next_update_partition s.dev ≡ some p);
    Taken = λ image s. (booted s ≡ q) × OnPartition image s;
    Failed = λ s. booted s ≡ q;
    Aborted = λ s. booted s ≡ q;
    Whole = λ image s. (booted s ≡ some p) × (laws.contents p s.dev ≡ image);
  }

  start-Tells :
      (s : S)
      → plain_course.Before s
      → Tells (plain_course.Taken []) plain_course.Failed (start_ota_ws api rollback_enable s)
  start-Tells s (same, next) =
      let (ret, s1, run, _) = answers _ (start_returns api rollback_enable p s next) in
      let same' = (start-boot api laws boot_laws rollback_enable s s1 ret run).0 ∙ same in
      (
        ret,
        s1,
        run,
        (λ good. (
          same',
          start-OnTarget api laws rollback_enable p s s1 next (rw (is_err-esp_ok ret good) at run),
        )),
        (λ bad. same'),
      )

  -- A chunk that is taken, without the zero behind it.
  chunk-On :
      (image c : Bytes) (s s1 : S)
      → OnPartition image s
      → write_ota_ws api rollback_enable (length c) (some (c ++ (0 ∷ []))) s ≡ done esp_ok s1
      → OnPartition (image ++ c) s1
  chunk-On image c s s1 t run =
      let (bytes, is_there, inside, t1) =
        write-On api laws boot_laws rollback_enable p (length c) image (some (c ++ (0 ∷ []))) s s1 t
          run in
      let same : bytes ≡ c ++ (0 ∷ []) = cc in
      subst (λ taken. OnPartition (image ++ taken) s1) (take-append_length c (0 ∷ []))
        (rw same at t1)

  write-Tells :
      (image c : Bytes) (s : S)
      → plain_course.Taken image s
      → Tells
          (plain_course.Taken (image ++ c))
          plain_course.Failed
          (write_ota_ws api rollback_enable (length c) (some (c ++ (0 ∷ []))) s)
  write-Tells image c s (same, t) =
      let buf = c ++ (0 ∷ []) in
      let (ret, s1, run, _) = answers _ (
        write_returns api rollback_enable (length c) (some buf) s
          (omega (arith, length-append {0} {A = ℕ} c (0 ∷ [])))) in
      let same' =
        write-boot api laws boot_laws rollback_enable (length c) (some buf) s s1 ret run ∙ same in
      (
        ret,
        s1,
        run,
        (λ good. (same', chunk-On image c s s1 t (rw (is_err-esp_ok ret good) at run))),
        (λ bad. same'),
      )

  end-Tells :
      (image : Bytes) (s : S)
      → plain_course.Taken image s
      → Tells (plain_course.Whole image) plain_course.Failed (end_ota_ws api rollback_enable s)
  end-Tells image s (same, t) =
      let (ret, s1, run, _) = answers _ (end_returns api rollback_enable s) in
      (
        ret,
        s1,
        run,
        (λ good.
            end_lem api laws rollback_enable p image s s1 t (rw (is_err-esp_ok ret good) at run)),
        (λ bad. end-boot api laws boot_laws rollback_enable s s1 ret bad run ∙ same),
      )

  pub plain-Follows : Follows (plain api rollback_enable) plain_course
  plain-Follows = record {
    start_follows = start-Tells;
    write_follows = write-Tells;
    end_follows = end-Tells;
    abort_follows = λ s same.
        let (ret, s1, run, _) = answers _ (abort_returns api rollback_enable s) in
        (ret, s1, run, abort-boot api laws boot_laws rollback_enable s s1 ret run ∙ same);
  }

-- A click on the button while no update runs, on a page that has a file, with the plain flash writer on
-- a device that does what ESP-IDF documents, has partition p for the next update and no text on its way
-- to the page. Chunk size and file are not empty and below 2 ^ 31, and the tokenizer finds the tokens of
-- the announcement. Then, whichever calls of the update the device refuses, no run of page and device
-- has more steps than five and two for each part behind the first; and wherever a run has got to, at most
-- the rest of these steps lead to a state with nothing on its way, where neither the page nor the device
-- is in an update, the receive buffers are those of before, and either the device boots from p, which
-- holds the file, or the partition to boot from is the one of before.
pub plain_page_outcome :
    (api : OtaApi) (laws : OtaLaws api) (boot_laws : BootLaws api laws) (rollback_enable : Bool)
    (jsmn_parse : JsmnParse) (chunk_config : ℕ) (json : Json) (json_laws : JsonLaws json) (p : ℕ)
    (page : Page) (file : Bytes) (w : Session (EspOta api.Dev)) (k : ℕ) (V : World (EspOta api.Dev))
    → page.ota_data ≡ some file
    → page.ota_started ≡ 0
    → w.sent ≡ []
    → IsSendable jsmn_parse chunk_config file
    → api.esp_ota_get_next_update_partition w.backend.dev ≡ some p
    → (let (clicked, frames) = start_cancel json page in
        Run
          (plain api rollback_enable)
          jsmn_parse
          chunk_config
          json
          (record { page = clicked; frames = frames; session = w })
          k
          V)
    → (j : ℕ) × (U : World (EspOta api.Dev)) × Run
        (plain api rollback_enable)
        jsmn_parse
        chunk_config
        json
        V
        j
        U
      × (k + j ≤ 2 * length (parts (length file) (ota_chunk_size chunk_config) file) + 5)
      × IsSettled
          (plain api rollback_enable)
          (λ s.
            ((api.esp_ota_get_boot_partition s.dev ≡ some p) × (laws.contents p s.dev ≡ file))
            ⊎ (api.esp_ota_get_boot_partition s.dev ≡ api.esp_ota_get_boot_partition w.backend.dev))
          w.live_bufs
          U
plain_page_outcome api laws boot_laws r jsmn_parse chunk_config json json_laws p page file w k V
      read idle none_sent sendable next run =
    let q = api.esp_ota_get_boot_partition w.backend.dev in
    start_cancel-finishes (plain api r) jsmn_parse chunk_config json json_laws
      (plain_course api laws boot_laws r p q) (plain-Follows api laws boot_laws r p q) page file w k
      V read idle none_sent (refl, next) sendable run
