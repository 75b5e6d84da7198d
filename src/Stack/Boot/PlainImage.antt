-- ===== src/Stack/Boot/PlainImage.antt =====
-- The handler with source/ota_ws_update_esp.c: an image that the device comes to boot has arrived whole.
use ota_ws_update.Base.{
  ℕ, ◌≤◌, ◌≡◌, refl, ◌⊎◌, inl, inr, Bool, Option, some, List, [], ◌∷◌, arith, Bytes, length,
  length-take, length-append, take,
}
use ota_ws_update.Esp.{EspErr, esp_ok, done}
use ota_ws_update.Jsmn.{JsmnParse}
use ota_ws_update.Device.{OtaApi, OtaLaws, BootLaws}
use ota_ws_update.Plain.{
  EspOta, plain, start_ota_ws, write_ota_ws, end_ota_ws, check_ota_ws_rollback_enable,
  rollback_ota_ws,
}
use ota_ws_update.Plain.Image.{OnTarget, end_lem}
use ota_ws_update.Plain.Boot.{
  boot, start-boot, write-boot, write-On, end-boot, abort-boot, rollback-boot,
}
use ota_ws_update.Http.Session.{Session, initial}
use ota_ws_update.Http.Handler.{Request, ota_ws_handler, serve}
use ota_ws_update.Http.Calls.{Call, started, wrote, ended, Logged, logged, taken, amount}
use ota_ws_update.Stack.Boot.{BootWriter}
use ota_ws_update.Stack.Boot.Frames.{serve-boot}

module _ (api : OtaApi) (laws : OtaLaws api) (boot_laws : BootLaws api laws)
    (rollback_enable : Bool) where
  -- Some partition holds what was taken so far.
  abbrev Held : List Call → EspOta api.Dev → Type 0
  Held calls s =
      ((p : ℕ) × OnTarget api laws rollback_enable p (taken calls) s)
      × (amount calls ≡ length (taken calls))

  -- The device boots from a partition that holds what was taken.
  abbrev Whole : List Call → EspOta api.Dev → Type 0
  Whole calls s =
      ((p : ℕ) × (boot api laws boot_laws rollback_enable s ≡ some p)
        × (laws.contents p s.dev ≡ taken calls))
      × (amount calls ≡ length (taken calls))

  start-Held :
      (calls : List Call) (s s1 : EspOta api.Dev)
      → start_ota_ws api rollback_enable s ≡ done esp_ok s1
      → Held (started esp_ok ∷ calls) s1
  unfolding taken amount
  start-Held calls s s1 run =
      ((start-boot api laws boot_laws rollback_enable s s1 esp_ok run).1 refl, refl)

  write-Held :
      (n : ℕ) (buf : Option Bytes) (calls : List Call) (s s1 : EspOta api.Dev)
      → Held calls s
      → write_ota_ws api rollback_enable n buf s ≡ done esp_ok s1
      → Held (wrote n buf esp_ok ∷ calls) s1
  unfolding taken amount
  write-Held n buf calls s s1 ((p, on), counted) run =
      let (bytes, is_there, inside, on') =
        write-On api laws boot_laws rollback_enable p n (taken calls) buf s s1 on run in
      rw is_there (
        (p, on'),
        omega (arith, length-take n bytes, length-append {0} {A = ℕ} (taken calls) (take n bytes)),
      )

  end-Whole :
      (calls : List Call) (s s1 : EspOta api.Dev)
      → Held calls s
      → end_ota_ws api rollback_enable s ≡ done esp_ok s1
      → Whole (ended esp_ok ∷ calls) s1
  unfolding taken amount
  end-Whole calls s s1 ((p, on), counted) run =
      let (boots, holds) = end_lem api laws rollback_enable p (taken calls) s s1 on run in
      ((p, boots, holds), counted)

  check_same :
      (s s1 : EspOta api.Dev) (pending : Bool)
      → check_ota_ws_rollback_enable api rollback_enable s ≡ done pending s1
      → s1 ≡ s
  unfolding check_ota_ws_rollback_enable
  check_same s s1 pending run = ground arith

  rollback-Held :
      (rollback : Bool) (calls : List Call) (s s1 : EspOta api.Dev) (ret : EspErr)
      → rollback_ota_ws api rollback_enable rollback s ≡ done ret s1
      → Held calls s
      → Held calls s1
  rollback-Held rollback calls s s1 ret run ((p, on), counted) =
      let keeps = (rollback-boot api laws boot_laws rollback_enable rollback s s1 ret run).1 in
      ((p, keeps p (taken calls) on), counted)

  abbrev plain_writer : BootWriter (plain api rollback_enable)
  plain_writer = record {
    boot = boot api laws boot_laws rollback_enable;
    Held = Held;
    Whole = Whole;
    start_boot = λ s s1 ret run. (start-boot api laws boot_laws rollback_enable s s1 ret run).0;
    start_held = start-Held;
    write_boot = write-boot api laws boot_laws rollback_enable;
    write_held = write-Held;
    end_boot =
        λ calls s s1 ret h bad run. end-boot api laws boot_laws rollback_enable s s1 ret bad run;
    end_whole = end-Whole;
    abort_boot = abort-boot api laws boot_laws rollback_enable;
    check_boot = λ s s1 pending run. rw (check_same s s1 pending run) refl;
    check_held = λ calls s s1 pending run h. rw (check_same s s1 pending run) h;
    rollback_boot = λ rollback s s1 ret run.
        (rollback-boot api laws boot_laws rollback_enable rollback s s1 ret run).0;
    rollback_held = rollback-Held;
  }

-- The device boots from a partition that holds what the flash writer has taken since its last start,
-- and this is not less than was announced.
pub record HasArrived (api : OtaApi) (laws : OtaLaws api) (size : ℕ) (s : Logged (EspOta api.Dev))
    : Type 0 where
  pub partition : ℕ
  pub selected : api.esp_ota_get_boot_partition s.inner.dev ≡ some partition
  pub holds : laws.contents partition s.inner.dev ≡ taken s.calls
  pub enough : size ≤ length (taken s.calls)

-- On a device that does what ESP-IDF documents, after any sequence of frames from the start of the
-- program, with any answers of the server, the allocator and the tokenizer, a frame whose call of the
-- handler returns leaves the partition to boot from as it was, or the device boots from a partition that
-- holds exactly the bytes that the flash writer has taken since it was last started, in order, and
-- these are not less than the size that was announced.
pub plain_boots_whole :
    (api : OtaApi) (laws : OtaLaws api) (boot_laws : BootLaws api laws) (rollback_enable : Bool)
    (jsmn_parse : JsmnParse) (chunk_config : ℕ) (reqs : List Request) (req : Request)
    (s : EspOta api.Dev) (rets : List EspErr) (w : Session (Logged (EspOta api.Dev))) (ret : EspErr)
    (w' : Session (Logged (EspOta api.Dev)))
    → serve
        (logged (plain api rollback_enable))
        jsmn_parse
        chunk_config
        reqs
        (initial (record { inner = s; calls = [] }))
      ≡ done rets w
    → ota_ws_handler (logged (plain api rollback_enable)) jsmn_parse chunk_config req w
      ≡ done ret w'
    → (api.esp_ota_get_boot_partition w'.backend.inner.dev
        ≡ api.esp_ota_get_boot_partition w.backend.inner.dev)
      ⊎ HasArrived api laws w.ota_size w'.backend
plain_boots_whole api laws boot_laws r jsmn_parse chunk_config reqs req s rets w ret w' served
      handled =
    let writer = plain_writer api laws boot_laws r in
    elim (serve-boot (plain api r) writer jsmn_parse chunk_config reqs req s rets w ret w' served
      handled) [
        | inl same ↦ inl same
        | inr whole ↦
            let ((p, boots, holds), counted) = whole.whole in
            inr (record {
              partition = p;
              selected = boots;
              holds = holds;
              enough = omega (arith, whole.enough);
            })
      ]
