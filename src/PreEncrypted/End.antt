-- ===== src/PreEncrypted/End.antt =====
-- `end_ota_ws` cleans up the decryption handle and frees the output buffer, and keeps both pointers.
use ota_ws_update.Base.{◌≡◌, refl, Bool, true, false, none, some, arith, Bytes, ◌==◌}
use ota_ws_update.Esp.{EspErr, esp_ok, is_err, done, crash, use_after_free}
use ota_ws_update.Device.{OtaApi}
use ota_ws_update.EncryptedImg.{EncryptedImg}
use ota_ws_update.PreEncrypted.{PreEncOta}
use ota_ws_update.PreEncrypted.Library.{esp_encrypted_img_decrypt_end, put_ctx}
use ota_ws_update.PreEncrypted.Abort.{IsOwned}
use ota_ws_update.PreEncrypted.Output.{live_handle}
use ota_ws_update.PreEncrypted.Writer.{abort_with, abort_ota_ws, end_ota_ws}

module _ (api : OtaApi) (lib : EncryptedImg) (rollback_enable : Bool)
    (rsa_private_pem : Bytes) where
  -- The handle is not NULL, and what it points to is not allocated.
  abbrev Dangles : PreEncOta api.Dev lib.Ctx → Type 0
  Dangles s = ((s.enc_handle == 0) ≡ false) × (s.heap.ctx_at s.enc_handle ≡ none)

  abort-Dangles :
      (s : PreEncOta api.Dev lib.Ctx)
      → Dangles s
      → abort_ota_ws api lib rollback_enable rsa_private_pem s ≡ crash use_after_free
  unfolding abort_ota_ws
  abort-Dangles s (h, e) = ground arith

  abort_with-Dangles :
      (ret : EspErr) (s : PreEncOta api.Dev lib.Ctx)
      → Dangles s
      → abort_with api lib rollback_enable rsa_private_pem ret s ≡ crash use_after_free
  unfolding abort_with
  abort_with-Dangles ret s d = rw (abort-Dangles s d) refl

  -- The state in which the library has cleaned up the handle.
  abbrev pub cleaned : PreEncOta api.Dev lib.Ctx → PreEncOta api.Dev lib.Ctx
  cleaned s = put_ctx api.Dev lib s.enc_handle none s

  cleaned-Dangles :
      (s : PreEncOta api.Dev lib.Ctx) → (s.enc_handle == 0) ≡ false → Dangles (cleaned s)
  cleaned-Dangles s h = (h, ground arith)

  pub decrypt_end-live :
      (s : PreEncOta api.Dev lib.Ctx) (c : lib.Ctx)
      → (s.enc_handle == 0) ≡ false
      → s.heap.ctx_at s.enc_handle ≡ some c
      → esp_encrypted_img_decrypt_end api.Dev lib s.enc_handle s
        ≡ done (lib.decrypt_end c) (cleaned s)
  unfolding esp_encrypted_img_decrypt_end
  decrypt_end-live s c h live = simp (h, live)

  -- Where the library finds that the image is incomplete or its tag wrong, the flash writer aborts on
  -- the handle that the library has just freed.
  pub end_ota_ws-refused_image :
      (s : PreEncOta api.Dev lib.Ctx) (c : lib.Ctx)
      → (s.enc_handle == 0) ≡ false
      → s.heap.ctx_at s.enc_handle ≡ some c
      → is_err (lib.decrypt_end c) ≡ true
      → end_ota_ws api lib rollback_enable rsa_private_pem s ≡ crash use_after_free
  unfolding end_ota_ws
  end_ota_ws-refused_image s c h live bad =
      rw (decrypt_end-live s c h live, bad)
        (abort_with-Dangles (lib.decrypt_end c) (cleaned s) (cleaned-Dangles s h))

  -- On a handle that is allocated `end_ota_ws` returns nothing but ESP_OK, and in the state in which
  -- it does, the next `abort_ota_ws` uses the freed handle.
  pub end_ota_ws-then_abort :
      (s s' : PreEncOta api.Dev lib.Ctx) (ret : EspErr)
      → IsOwned s
      → (s.enc_handle == 0) ≡ false
      → end_ota_ws api lib rollback_enable rsa_private_pem s ≡ done ret s'
      → (ret ≡ esp_ok)
        × (abort_ota_ws api lib rollback_enable rsa_private_pem s' ≡ crash use_after_free)
  unfolding end_ota_ws
  end_ota_ws-then_abort s s' ret o h run =
      let (c, live) = live_handle s o h in
      let s1 = cleaned s in
      let d1 = (api.esp_ota_end s1.update_handle s1.dev).1 in
      let s2 = record s1 { dev = d1 } in
      let d2 = (api.esp_ota_set_boot_partition s2.update_partition d1).1 in
      let s3 = record s2 { dev = d2 } in
      ground (
        arith,
        decrypt_end-live s c h live,
        abort_with-Dangles (lib.decrypt_end c) s1 (cleaned-Dangles s h),
        abort_with-Dangles (api.esp_ota_end s1.update_handle s1.dev).0 s2 (cleaned-Dangles s h),
        abort_with-Dangles (api.esp_ota_set_boot_partition s2.update_partition d1).0 s3
            (cleaned-Dangles s h),
        abort-Dangles s',
      )
