-- ===== src/Stack/Encrypted.antt =====
-- The handler with the flash writer for encrypted images, before the end of the first update.
use ota_ws_update.Base.{ℕ, ◌≡◌, refl, inl, Bool, some, List, Bytes}
use ota_ws_update.Backend.{Ends, Ends-mono}
use ota_ws_update.Jsmn.{JsmnParse, JsmnLaws}
use ota_ws_update.Device.{OtaApi}
use ota_ws_update.EncryptedImg.{EncryptedImg}
use ota_ws_update.Http.Session
use ota_ws_update.Http.Handler.{Request, serve}
use ota_ws_update.Http.Invariant.{IsConsistent, IsKept}
use ota_ws_update.Http.Connection.{IsTame, AllReqs, initial-IsKept}
use ota_ws_update.Http.BeforeEnd.{NoEnd, serve-NoEnd}
use ota_ws_update.PreEncrypted.{initial}
use ota_ws_update.PreEncrypted.Output.{DecryptLaws, IsSound}
use ota_ws_update.PreEncrypted.Writer.{pre_encrypted}
use ota_ws_update.PreEncrypted.Keeps.{encrypted-Keeps}

-- The device always has a partition for the next update, the tokenizer does what it documents, the
-- decryption library does what `DecryptLaws` says of it, and the texts are ones that the parser takes apart safely. Then, from the start
-- of the program and as long as no frame ends an update, no sequence of frames has undefined
-- behaviour: updates that are started, refused, cancelled and started again. The counters stay
-- consistent, every receive buffer is freed, the flash writer's pointers are live or NULL, an output
-- buffer holds `data_out_len` bytes, and none are announced before the image's header is checked.
pub encrypted_safe :
    (api : OtaApi) (lib : EncryptedImg) (laws : DecryptLaws lib) (rollback_enable : Bool)
    (rsa_private_pem : Bytes) (jsmn_parse : JsmnParse) (jsmn_laws : JsmnLaws jsmn_parse)
    (chunk_config : ℕ) (reqs : List Request) (d : api.Dev)
    → ((d' : api.Dev) → (p : ℕ) × (api.esp_ota_get_next_update_partition d' ≡ some p))
    → AllReqs (IsTame jsmn_parse) reqs
    → NoEnd
        (pre_encrypted api lib rollback_enable rsa_private_pem)
        jsmn_parse
        chunk_config
        reqs
        (Session.initial (initial d))
    → Ends ⊥
        (λ _ w. IsConsistent w × (w.live_bufs ≡ 0) × IsSound w.backend)
        (serve
          (pre_encrypted api lib rollback_enable rsa_private_pem)
          jsmn_parse
          chunk_config
          reqs
          (Session.initial (initial d)))
encrypted_safe api lib laws r pem jsmn_parse jsmn_laws chunk_config reqs d next tame more =
    let w = Session.initial (initial d) in
    Ends-mono ⊥ (λ _. IsKept IsSound 0)
      (λ _ w'. IsConsistent w' × (w'.live_bufs ≡ 0) × IsSound w'.backend)
      (serve (pre_encrypted api lib r pem) jsmn_parse chunk_config reqs w)
      (serve-NoEnd (pre_encrypted api lib r pem) jsmn_parse chunk_config jsmn_laws IsSound
        (encrypted-Keeps api lib laws r pem next) reqs 0 w
        (initial-IsKept IsSound (initial d) (record {
          owned = record { handle_live = inl refl; out_live = inl refl };
          readable = record { output = inl (refl, λ e. refl) };
          fresh = λ e. refl;
        }))
        tame more)
      (λ rets w' k. (k.consistent, k.same_bufs, k.kept))
