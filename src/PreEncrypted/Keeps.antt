-- ===== src/PreEncrypted/Keeps.antt =====
-- The flash writer for encrypted images fulfils its contract up to the end of an update.
use ota_ws_update.Base.{ℕ, suc, ◌≡◌, refl, inl, inr, Bool, false, Option, none, some, arith, Bytes}
use ota_ws_update.Esp.{EspErr, esp_ok, esp_fail, done}
use ota_ws_update.Device.{OtaApi, Begin, handle, refused}
use ota_ws_update.EncryptedImg.{EncryptedImg, update}
use ota_ws_update.Backend.{Keeps, Ends, Ends-mono}
use ota_ws_update.Http.Ending.{without_end}
use ota_ws_update.PreEncrypted.{PreEncOta, cleared_arg}
use ota_ws_update.PreEncrypted.Abort.{IsReleased, aborted, abort-IsOwned}
use ota_ws_update.PreEncrypted.Output.{DecryptLaws, IsSound, update_self}
use ota_ws_update.PreEncrypted.Library.{esp_encrypted_img_decrypt_start}
use ota_ws_update.PreEncrypted.Write.{Written, write_ota_ws-Ends, abort_with-Ends, with_dev-IsSound}
use ota_ws_update.PreEncrypted.Writer.{
  abort_ota_ws, abort_with, begun, begin_update, start_ota_ws, check_ota_ws_rollback_enable,
  rollback_ota_ws, pre_encrypted,
}

IsReleased-IsSound : {Dev Ctx : Type 0} (s : PreEncOta Dev Ctx) → IsReleased s → IsSound s
IsReleased-IsSound s r = record {
  owned = record { handle_live = inl r.no_handle; out_live = inl (ground (arith, r.no_arg)) };
  readable = record {
    output = inl (ground (arith, r.no_arg), λ unchecked. ground (arith, r.no_arg));
  };
  fresh = λ unchecked. ground (arith, r.no_arg);
}

module _ (api : OtaApi) (lib : EncryptedImg) (laws : DecryptLaws lib) (rollback_enable : Bool)
    (rsa_private_pem : Bytes) where
  Written-IsSound :
      (ret : EspErr) (s : PreEncOta api.Dev lib.Ctx)
      → Written api lib rollback_enable rsa_private_pem ret s
      → IsSound s
  Written-IsSound ret s (inl (_, sound)) = sound
  Written-IsSound ret s (inr (_, released)) = IsReleased-IsSound s released

  -- Behind `esp_ota_begin`, without a context and with one.
  abbrev begun_state : ℕ → PreEncOta api.Dev lib.Ctx → PreEncOta api.Dev lib.Ctx
  begun_state h s = record s {
    update_handle = h;
    image_header_was_checked = false;
    enc_cfg = rsa_private_pem;
  }

  begun-no_context :
      (h : ℕ) (s : PreEncOta api.Dev lib.Ctx)
      → lib.decrypt_start rsa_private_pem s.heap.last ≡ none
      → begun api lib rollback_enable rsa_private_pem (handle h) s
        ≡ abort_with api lib rollback_enable rsa_private_pem esp_fail
            (record (begun_state h s) { enc_handle = 0 })
  unfolding begun esp_encrypted_img_decrypt_start
  begun-no_context h s e = ground (arith, e)

  begun-context :
      (h : ℕ) (c : lib.Ctx) (s : PreEncOta api.Dev lib.Ctx)
      → lib.decrypt_start rsa_private_pem s.heap.last ≡ some c
      → begun api lib rollback_enable rsa_private_pem (handle h) s
        ≡ done esp_ok (record (begun_state h s) {
          enc_handle = suc s.heap.last;
          enc_arg = cleared_arg;
          heap = record (s.heap) {
            last = suc s.heap.last;
            ctx_at = update s.heap.ctx_at (suc s.heap.last) (some c);
          };
        })
  unfolding begun esp_encrypted_img_decrypt_start
  begun-context h c s e = ground (arith, e)

  decrypt_started-Ends :
      (h : ℕ) (made : Option lib.Ctx) (s : PreEncOta api.Dev lib.Ctx)
      → IsSound s
      → lib.decrypt_start rsa_private_pem s.heap.last ≡ made
      → Ends ⊥ (λ _. IsSound) (begun api lib rollback_enable rsa_private_pem (handle h) s)
  decrypt_started-Ends h none s o e =
      let s1 = record (begun_state h s) { enc_handle = 0 } in
      rw (begun-no_context h s e) (
        Ends-mono ⊥ (Written api lib rollback_enable rsa_private_pem) (λ _. IsSound)
          (abort_with api lib rollback_enable rsa_private_pem esp_fail s1)
          (abort_with-Ends api lib rollback_enable rsa_private_pem esp_fail s1 refl
            (record { handle_live = inl refl; out_live = o.owned.out_live }))
          Written-IsSound)
  decrypt_started-Ends h (some c) s o e = rw (begun-context h c s e) (record {
    owned = record {
      handle_live = inr (c, update_self s.heap.ctx_at (suc s.heap.last) (some c));
      out_live = inl refl;
    };
    readable = record { output = inl (refl, λ unchecked. refl) };
    fresh = λ unchecked. refl;
  })

  begun-refused :
      (s : PreEncOta api.Dev lib.Ctx)
      → IsSound s
      → Ends ⊥ (λ _. IsSound) (begun api lib rollback_enable rsa_private_pem refused s)
  unfolding begun
  begun-refused s o = o

  begun-Ends :
      (b : Begin) (s : PreEncOta api.Dev lib.Ctx)
      → IsSound s
      → Ends ⊥ (λ _. IsSound) (begun api lib rollback_enable rsa_private_pem b s)
  begun-Ends (handle h) s o =
      decrypt_started-Ends h (lib.decrypt_start rsa_private_pem s.heap.last) s o refl
  begun-Ends refused s o = begun-refused s o

  start-Ends :
      (p : ℕ) (s : PreEncOta api.Dev lib.Ctx)
      → api.esp_ota_get_next_update_partition s.dev ≡ some p
      → IsSound s
      → Ends ⊥ (λ _. IsSound) (start_ota_ws api lib rollback_enable rsa_private_pem s)
  unfolding start_ota_ws begin_update
  start-Ends p s next o =
      let b = api.esp_ota_begin p s.dev in
      let begins =
        begun-Ends b.0 (record s { update_partition = some p; dev = b.1 })
          (record {
            owned = record { handle_live = o.owned.handle_live; out_live = o.owned.out_live };
            readable = record { output = o.readable.output };
            fresh = o.fresh;
          }) in
      ground (arith, begins, o)

  abort-Ends :
      (s : PreEncOta api.Dev lib.Ctx)
      → IsSound s
      → Ends ⊥ (λ _. IsSound) (abort_ota_ws api lib rollback_enable rsa_private_pem s)
  abort-Ends s o = rw (abort-IsOwned api lib rollback_enable rsa_private_pem s o.owned) (
      IsReleased-IsSound (aborted api lib rollback_enable rsa_private_pem s)
        (record { no_handle = refl; no_update = refl; no_arg = refl }))

  rollback-Ends :
      (roll : Bool) (s : PreEncOta api.Dev lib.Ctx)
      → IsSound s
      → Ends ⊥ (λ _. IsSound) (rollback_ota_ws api lib rollback_enable rsa_private_pem roll s)
  unfolding rollback_ota_ws
  rollback-Ends roll s o =
      let d1 = (api.esp_ota_mark_app_valid_cancel_rollback s.dev).1 in
      let d2 = (api.esp_ota_mark_app_invalid_rollback_and_reboot s.dev).1 in
      ground (
        arith,
        o,
        with_dev-IsSound api lib rollback_enable rsa_private_pem d1 s o,
        with_dev-IsSound api lib rollback_enable rsa_private_pem d2 s o,
      )

  pub encrypted-Keeps :
      ((d : api.Dev) → (p : ℕ) × (api.esp_ota_get_next_update_partition d ≡ some p))
      → Keeps ⊥ (without_end (pre_encrypted api lib rollback_enable rsa_private_pem)) IsSound
  unfolding check_ota_ws_rollback_enable
  encrypted-Keeps next = record {
    start_keeps = λ s o. start-Ends (next s.dev).0 s (next s.dev).1 o;
    write_keeps = λ n buf s o h.
        Ends-mono ⊥ (Written api lib rollback_enable rsa_private_pem) (λ _. IsSound) _
          (write_ota_ws-Ends api lib rollback_enable rsa_private_pem laws n buf s o)
          Written-IsSound;
    end_keeps = λ s o. tt;
    abort_keeps = λ s o. abort-Ends s o;
    check_keeps = λ s o. o;
    rollback_keeps = λ roll s o. rollback-Ends roll s o;
  }
