-- ===== src/Stack/Boot/EncryptedImage.antt =====
-- The handler with source/ota_ws_update_esp_preencrypted.c: an image that the device comes to boot has
-- been verified by the library esp_encrypted_img.
use ota_ws_update.Base.{ℕ, ◌≤◌, ◌≡◌, refl, ◌⊎◌, inl, inr, Bool, Option, some, List, [], Bytes}
use ota_ws_update.Esp.{EspErr, esp_ok, Outcome, done}
use ota_ws_update.Jsmn.{JsmnParse}
use ota_ws_update.Backend.{Ends}
use ota_ws_update.Device.{OtaApi, OtaLaws, BootLaws}
use ota_ws_update.EncryptedImg.{EncryptedImg}
use ota_ws_update.PreEncrypted.{PreEncOta}
use ota_ws_update.PreEncrypted.Output.{DecryptLaws}
use ota_ws_update.PreEncrypted.Writer.{pre_encrypted}
use ota_ws_update.PreEncrypted.Boot.{boot, abort-Keeps, start-Keeps, write-Keeps, rollback-boot}
use ota_ws_update.Http.Session.{Session, initial}
use ota_ws_update.Http.Handler.{Request, ota_ws_handler, serve}
use ota_ws_update.Http.Calls.{Logged, logged, amount}
use ota_ws_update.Stack.Boot.{BootWriter}
use ota_ws_update.Stack.Boot.Frames.{serve-boot}
use ota_ws_update.Stack.Boot.Verified.{
  context_of, image_of, Held, Whole, next-Held, write-Held, end-boot, end-Whole, check_same,
  rollback-Held,
}

module _ (api : OtaApi) (ota_laws : OtaLaws api) (boot_laws : BootLaws api ota_laws)
    (lib : EncryptedImg) (laws : DecryptLaws lib) (rollback_enable : Bool)
    (rsa_private_pem : Bytes) where
  abbrev S : Type 0
  S = PreEncOta api.Dev lib.Ctx

  -- What holds behind a call that has returned.
  behind :
      {A : Type 0} (P : A → S → Type 0) (o : Outcome S A) (a : A) (s1 : S)
      → Ends (Unit {0}) P o
      → o ≡ done a s1
      → P a s1
  behind P o a s1 h e = rw e at h

  abbrev booted : S → Option ℕ
  booted = boot api ota_laws boot_laws lib rollback_enable rsa_private_pem

  abbrev verified_writer : BootWriter (pre_encrypted api lib rollback_enable rsa_private_pem)
  verified_writer =
      let be = pre_encrypted api lib rollback_enable rsa_private_pem in
      record {
        boot = booted;
        Held = Held api ota_laws boot_laws lib laws rollback_enable rsa_private_pem;
        Whole = Whole api ota_laws boot_laws lib laws rollback_enable rsa_private_pem;
        start_boot = λ s s1 ret run.
            behind (λ _ t. booted t ≡ booted s) (be.start_ota_ws s) ret s1
              (start-Keeps api ota_laws boot_laws lib rollback_enable rsa_private_pem s) run;
        start_held = λ calls s s1 run.
            next-Held api ota_laws boot_laws lib laws rollback_enable rsa_private_pem
              (api.esp_ota_get_next_update_partition s.dev) calls s s1 refl run;
        write_boot = λ n buf s s1 ret run.
            behind (λ _ t. booted t ≡ booted s) (be.write_ota_ws n buf s) ret s1
              (write-Keeps api ota_laws boot_laws lib rollback_enable rsa_private_pem n buf s) run;
        write_held = write-Held api ota_laws boot_laws lib laws rollback_enable rsa_private_pem;
        end_boot = end-boot api ota_laws boot_laws lib laws rollback_enable rsa_private_pem;
        end_whole = end-Whole api ota_laws boot_laws lib laws rollback_enable rsa_private_pem;
        abort_boot = λ s s1 ret run.
            behind (λ _ t. booted t ≡ booted s) (be.abort_ota_ws s) ret s1
              (abort-Keeps api ota_laws boot_laws lib rollback_enable rsa_private_pem s) run;
        check_boot = λ s s1 pending run.
            rw
              (check_same api ota_laws boot_laws lib laws rollback_enable rsa_private_pem s s1
                pending run)
              refl;
        check_held = λ calls s s1 pending run h.
            rw
              (check_same api ota_laws boot_laws lib laws rollback_enable rsa_private_pem s s1
                pending run)
              h;
        rollback_boot = rollback-boot api ota_laws boot_laws lib rollback_enable rsa_private_pem;
        rollback_held =
            rollback-Held api ota_laws boot_laws lib laws rollback_enable rsa_private_pem;
      }

-- The device boots from a partition that holds what the library has made of the chunks taken since the
-- last start, from a context that it gave for the private key; it has accepted the image at its
-- end, and the chunks are not less than was announced.
pub record HasVerified (api : OtaApi) (ota_laws : OtaLaws api) (lib : EncryptedImg)
    (rsa_private_pem : Bytes) (size : ℕ) (s : Logged (PreEncOta api.Dev lib.Ctx)) : Type 0 where
  pub partition : ℕ
  pub ctx : lib.Ctx
  pub last : ℕ
  pub given : lib.decrypt_start rsa_private_pem last ≡ some ctx
  pub selected : api.esp_ota_get_boot_partition s.inner.dev ≡ some partition
  pub holds : ota_laws.contents partition s.inner.dev ≡ image_of lib ctx s.calls
  pub accepted : lib.decrypt_end (context_of lib ctx s.calls) ≡ esp_ok
  pub enough : size ≤ amount s.calls

-- On a device that does what ESP-IDF documents, with a library that does what `DecryptLaws` says, after any sequence of frames from the start
-- of the program, with any answers of the server, the allocator and the tokenizer, a frame whose
-- call of the handler returns leaves the partition to boot from as it was, or the device boots from
-- a partition that holds what the library has made of the chunks taken since the last start, in
-- order; the library has accepted this image at its end, and the chunks are not less than the
-- size that was announced.
pub encrypted_boots_verified :
    (api : OtaApi) (ota_laws : OtaLaws api) (boot_laws : BootLaws api ota_laws) (lib : EncryptedImg)
    (laws : DecryptLaws lib) (rollback_enable : Bool) (rsa_private_pem : Bytes)
    (jsmn_parse : JsmnParse) (chunk_config : ℕ) (reqs : List Request) (req : Request)
    (s : PreEncOta api.Dev lib.Ctx) (rets : List EspErr)
    (w : Session (Logged (PreEncOta api.Dev lib.Ctx))) (ret : EspErr)
    (w' : Session (Logged (PreEncOta api.Dev lib.Ctx)))
    → serve
        (logged (pre_encrypted api lib rollback_enable rsa_private_pem))
        jsmn_parse
        chunk_config
        reqs
        (initial (record { inner = s; calls = [] }))
      ≡ done rets w
    → ota_ws_handler
        (logged (pre_encrypted api lib rollback_enable rsa_private_pem))
        jsmn_parse
        chunk_config
        req
        w
      ≡ done ret w'
    → (api.esp_ota_get_boot_partition w'.backend.inner.dev
        ≡ api.esp_ota_get_boot_partition w.backend.inner.dev)
      ⊎ HasVerified api ota_laws lib rsa_private_pem w.ota_size w'.backend
encrypted_boots_verified api ota_laws boot_laws lib laws r pem jsmn_parse chunk_config reqs req s
      rets w ret w' served handled =
    let writer = verified_writer api ota_laws boot_laws lib laws r pem in
    elim (serve-boot (pre_encrypted api lib r pem) writer jsmn_parse chunk_config reqs req s rets w
      ret w' served handled) [
        | inl same ↦ inl same
        | inr whole ↦
            let (ctx, (last, given), p, (boots, holds, accepted)) = whole.whole in
            inr (record {
              partition = p;
              ctx = ctx;
              last = last;
              given = given;
              selected = boots;
              holds = holds;
              accepted = accepted;
              enough = whole.enough;
            })
      ]
