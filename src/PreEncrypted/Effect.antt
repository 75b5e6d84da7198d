-- ===== src/PreEncrypted/Effect.antt =====
-- What a write and a call of the decryption library have done when they report no error.
use ota_ws_update.Base.{
  ℕ, ◌≤◌, ◌≡◌, refl, Bool, true, false, some, none, arith, Bytes, ◌==◌, length, take,
}
use ota_ws_update.Esp.{EspErr, esp_ok, esp_fail, is_err, done, pure, bind-eq-done}
use ota_ws_update.Device.{OtaApi, RefusesNull}
use ota_ws_update.EncryptedImg.{EncryptedImg}
use ota_ws_update.PreEncrypted.{PreEncOta}
use ota_ws_update.PreEncrypted.Library.{esp_encrypted_img_decrypt_data, pointee, put_ctx}
use ota_ws_update.PreEncrypted.Abort.{IsOwned}
use ota_ws_update.PreEncrypted.Output.{
  DecryptLaws, set_len, renewed, out_state, output_runs, put_ctx-IsOwned,
}
use ota_ws_update.PreEncrypted.Writer.{
  is_decrypt_error, abort_ota_ws, abort_with, check_header, flash, decrypted,
}

module _ (api : OtaApi) (lib : EncryptedImg) (rollback_enable : Bool)
    (rsa_private_pem : Bytes) where
  pub abort_with-ret :
      (ret : EspErr) (s s' : PreEncOta api.Dev lib.Ctx)
      → is_err ret ≡ true
      → abort_with api lib rollback_enable rsa_private_pem ret s ≡ done esp_ok s'
      → ⊥
  unfolding abort_with
  abort_with-ret ret s s' failed run =
      let (_, s1, _, returned) =
        bind-eq-done (abort_ota_ws api lib rollback_enable rsa_private_pem s) (λ _. pure ret) run in
      ground (arith, returned)

  -- The output is on the device, and the header was checked or is so now.
  pub decrypted-wrote :
      (ret : EspErr) (b : Bytes) (s s' : PreEncOta api.Dev lib.Ctx)
      → is_decrypt_error ret ≡ false
      → (s.enc_arg.data_out == 0) ≡ false
      → s.heap.buf_at s.enc_arg.data_out ≡ some b
      → s.enc_arg.data_out_len ≤ length b
      → decrypted api lib rollback_enable rsa_private_pem ret s ≡ done esp_ok s'
      → let r = api.esp_ota_write s.update_handle (some (take s.enc_arg.data_out_len b)) s.dev in
        (r.0 ≡ esp_ok) × (s' ≡ record s { image_header_was_checked = true; dev = r.1 })
  unfolding decrypted pointee check_header flash
  decrypted-wrote ret b s s' good address live within run =
      let r = api.esp_ota_write s.update_handle (some (take s.enc_arg.data_out_len b)) s.dev in
      ground (
        arith,
        abort_with-ret esp_fail s s' refl,
        abort_with-ret r.0 (record s { dev = r.1 }) s',
        abort_with-ret r.0 (record s { image_header_was_checked = true; dev = r.1 }) s',
      )

  -- With no output announced the header cannot be checked.
  pub decrypted-short :
      (ret : EspErr) (s s' : PreEncOta api.Dev lib.Ctx)
      → is_decrypt_error ret ≡ false
      → s.enc_arg.data_out_len ≡ 0
      → s.image_header_was_checked ≡ false
      → decrypted api lib rollback_enable rsa_private_pem ret s ≡ done esp_ok s'
      → ⊥
  unfolding decrypted pointee check_header flash
  decrypted-short ret s s' good none_there unchecked run =
      ground (arith, abort_with-ret esp_fail s s' refl)

  -- Without an output buffer the device is given NULL, which it refuses.
  pub decrypted-null :
      (ret : EspErr) (s s' : PreEncOta api.Dev lib.Ctx)
      → RefusesNull api
      → is_decrypt_error ret ≡ false
      → s.enc_arg.data_out ≡ 0
      → s.image_header_was_checked ≡ true
      → decrypted api lib rollback_enable rsa_private_pem ret s ≡ done esp_ok s'
      → ⊥
  unfolding decrypted pointee flash
  decrypted-null ret s s' refuses good null checked run =
      let r = api.esp_ota_write s.update_handle none s.dev in
      let bad = refuses s.update_handle s.dev in
      ground (arith, bad, abort_with-ret r.0 (record s { dev = r.1 }) s' bad)

  module _ (laws : DecryptLaws lib) where
    -- The arguments of the call for a chunk.
    abbrev pub fed : Bytes → ℕ → PreEncOta api.Dev lib.Ctx → PreEncOta api.Dev lib.Ctx
    fed input n s = record s {
      enc_arg = record (s.enc_arg) { data_in = some input; data_in_len = n };
    }

    -- The state after a call that gives no output, and after one that gives some.
    abbrev pub kept : Bytes → ℕ → lib.Ctx → PreEncOta api.Dev lib.Ctx → PreEncOta api.Dev lib.Ctx
    kept input n ctx s =
        set_len api.Dev lib laws (some 0)
          (put_ctx api.Dev lib s.enc_handle (some ctx) (fed input n s))

    abbrev pub grown :
        Bytes → ℕ → lib.Ctx → Bytes → ℕ → PreEncOta api.Dev lib.Ctx → PreEncOta api.Dev lib.Ctx
    grown input n ctx b m s =
        set_len api.Dev lib laws (some m)
          (renewed api.Dev lib laws b (put_ctx api.Dev lib s.enc_handle (some ctx) (fed input n s)))

    module _ (s : PreEncOta api.Dev lib.Ctx) (input : Bytes) (n : ℕ) (ctx : lib.Ctx)
        (address : (s.enc_handle == 0) ≡ false) (live : s.heap.ctx_at s.enc_handle ≡ some ctx) where
      -- The state in which a call of the library returns.
      pub decrypt_data_runs :
          IsOwned s
          → let r = lib.decrypt_data input n ctx in
            esp_encrypted_img_decrypt_data api.Dev lib s.enc_handle (fed input n s)
            ≡ done r.ret (
                set_len api.Dev lib laws r.out_len (
                  out_state api.Dev lib laws r.out
                    (put_ctx api.Dev lib s.enc_handle (some r.ctx) (fed input n s))))
      unfolding esp_encrypted_img_decrypt_data
      decrypt_data_runs owned =
          let r = lib.decrypt_data input n ctx in
          let s1 = put_ctx api.Dev lib s.enc_handle (some r.ctx) (fed input n s) in
          simp address (
            rw live (
              output_runs api.Dev lib laws r.ret r.out r.out_len s1 (
                put_ctx-IsOwned api.Dev lib laws r.ctx (fed input n s)
                  (record { handle_live = owned.handle_live; out_live = owned.out_live }))))
