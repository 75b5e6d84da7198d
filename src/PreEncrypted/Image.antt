-- ===== src/PreEncrypted/Image.antt =====
-- The image that an update with the flash writer for encrypted images leaves on the device.
use ota_ws_update.Base.{
  ℕ, ◌≡◌, Bool, false, some, List, [], ◌∷◌, ◌++◌, arith, Bytes, if◌then◌else◌, length, append_assoc,
  append-nil,
}
use ota_ws_update.Esp.{esp_ok, is_err, done, pure, bind-eq-done, passed}
use ota_ws_update.Device.{OtaApi, OtaLaws, RefusesNull}
use ota_ws_update.EncryptedImg.{EncryptedImg}
use ota_ws_update.PreEncrypted.{PreEncOta}
use ota_ws_update.PreEncrypted.Output.{DecryptLaws}
use ota_ws_update.PreEncrypted.Writer.{start_ota_ws, end_ota_ws, pre_encrypted}
use ota_ws_update.PreEncrypted.Effect.{abort_with-ret}
use ota_ws_update.PreEncrypted.End.{decrypt_end-live, cleaned}
use ota_ws_update.Http.Upload.{upload}
use ota_ws_update.PreEncrypted.Target.{bytes_of, OnTarget}
use ota_ws_update.PreEncrypted.Taken.{write-OnTarget}
use ota_ws_update.PreEncrypted.Start.{started, start_ota_ws-IsOwned}

-- What the library makes of chunks, one after another; each comes with a zero behind it, as the handler
-- has it.
abbrev pub decrypted_image : (lib : EncryptedImg) → lib.Ctx → List Bytes → Bytes
decrypted_image lib ctx [] = []
decrypted_image lib ctx (c ∷ cs) =
    let r = lib.decrypt_data (c ++ (0 ∷ [])) (length c) ctx in
    bytes_of r.out r.out_len ++ decrypted_image lib r.ctx cs

-- The context behind the chunks.
abbrev pub context_after : (lib : EncryptedImg) → lib.Ctx → List Bytes → lib.Ctx
context_after lib ctx [] = ctx
context_after lib ctx (c ∷ cs) =
    context_after lib (lib.decrypt_data (c ++ (0 ∷ [])) (length c) ctx).ctx cs

module _ (api : OtaApi) (ota_laws : OtaLaws api) (lib : EncryptedImg) (laws : DecryptLaws lib)
    (rollback_enable : Bool) (rsa_private_pem : Bytes) where
  begun-OnTarget :
      (p : ℕ) (s s' : PreEncOta api.Dev lib.Ctx)
      → api.esp_ota_get_next_update_partition s.dev ≡ some p
      → start_ota_ws api lib rollback_enable rsa_private_pem s ≡ done esp_ok s'
      → (s'.update_partition ≡ some p)
        × (ota_laws.target s'.update_handle s'.dev ≡ some p)
        × (ota_laws.contents p s'.dev ≡ [])
        × (s'.image_header_was_checked ≡ false)
        × (s'.enc_arg.data_out_len ≡ 0)
  unfolding start_ota_ws
  begun-OnTarget p s s' next run =
      ground (arith, ota_laws.begin_erases p s'.update_handle s.dev s'.dev)

  pub start-OnTarget :
      (p : ℕ) (s s' : PreEncOta api.Dev lib.Ctx)
      → api.esp_ota_get_next_update_partition s.dev ≡ some p
      → start_ota_ws api lib rollback_enable rsa_private_pem s ≡ done esp_ok s'
      → (ctx : lib.Ctx) × (lib.decrypt_start rsa_private_pem s.heap.last ≡ some ctx)
        × OnTarget api ota_laws lib laws rollback_enable rsa_private_pem p [] ctx s'
  start-OnTarget p s s' next run =
      let (ctx, made, live, address, null) =
        started api lib rollback_enable rsa_private_pem s s' run in
      let (partition, bound, holds, unchecked, none_there) = begun-OnTarget p s s' next run in
      (
        ctx,
        made,
        record {
          partition = partition;
          bound = bound;
          holds = holds;
          some_handle = address;
          live = live;
          owned = (start_ota_ws-IsOwned api lib rollback_enable rsa_private_pem s s' run).0;
          had_output = λ checked. absurd (ground arith);
          decoding = λ checked. absurd (ground arith);
          fresh = λ _. none_there;
        },
      )

  -- The device boots from p, which holds this image, and the library has accepted it.
  abbrev pub Holds : ℕ → Bytes → lib.Ctx → api.Dev → Type 0
  Holds p image ctx d =
      (api.esp_ota_get_boot_partition d ≡ some p)
      × (ota_laws.contents p d ≡ image)
      × (lib.decrypt_end ctx ≡ esp_ok)

  pub end_lem :
      (p : ℕ) (image : Bytes) (ctx : lib.Ctx) (s s' : PreEncOta api.Dev lib.Ctx)
      → OnTarget api ota_laws lib laws rollback_enable rsa_private_pem p image ctx s
      → end_ota_ws api lib rollback_enable rsa_private_pem s ≡ done esp_ok s'
      → Holds p image ctx s'.dev
  unfolding end_ota_ws
  end_lem p image ctx s s' t run =
      let s1 = cleaned api lib rollback_enable rsa_private_pem s in
      let d1 = (api.esp_ota_end s.update_handle s.dev).1 in
      let s2 = record s1 { dev = d1 } in
      let d2 = (api.esp_ota_set_boot_partition s.update_partition d1).1 in
      let s3 = record s2 { dev = d2 } in
      let fails = abort_with-ret api lib rollback_enable rsa_private_pem in
      ground (
        arith,
        decrypt_end-live api lib rollback_enable rsa_private_pem s ctx t.some_handle t.live,
        fails (lib.decrypt_end ctx) s1 s',
        fails (api.esp_ota_end s.update_handle s.dev).0 s2 s',
        fails (api.esp_ota_set_boot_partition s.update_partition d1).0 s3 s',
        ota_laws.end_keeps p s.update_handle s.dev d1,
        ota_laws.set_boot_selects p d1 d2,
      )

  upload-Holds :
      (p : ℕ) (image c : Bytes) (cs : List Bytes) (ctx : lib.Ctx) (s s' : PreEncOta api.Dev lib.Ctx)
      → RefusesNull api
      → OnTarget api ota_laws lib laws rollback_enable rsa_private_pem p image ctx s
      → upload (pre_encrypted api lib rollback_enable rsa_private_pem) c cs s ≡ done esp_ok s'
      → Holds p (image ++ decrypted_image lib ctx (c ∷ cs)) (context_after lib ctx (c ∷ cs)) s'.dev
  unfolding upload
  upload-Holds p image c [] ctx s s' refuses t run =
      let w = pre_encrypted api lib rollback_enable rsa_private_pem in
      let (ret, s1, wrote, rest) =
        bind-eq-done (w.write_ota_ws (length c) (some (c ++ (0 ∷ []))) s)
          (λ ret. if is_err ret then pure ret else w.end_ota_ws) run in
      let (good, ends) = passed ret s1 w.end_ota_ws rest in
      let r = lib.decrypt_data (c ++ (0 ∷ [])) (length c) ctx in
      let t1 =
        write-OnTarget api ota_laws lib laws rollback_enable rsa_private_pem p image c ctx s s1
          refuses t (rw good at wrote) in
      rw append-nil (end_lem p (image ++ bytes_of r.out r.out_len) r.ctx s1 s' t1 ends)
  upload-Holds p image c (d ∷ ds) ctx s s' refuses t run =
      let w = pre_encrypted api lib rollback_enable rsa_private_pem in
      let (ret, s1, wrote, rest) =
        bind-eq-done (w.write_ota_ws (length c) (some (c ++ (0 ∷ []))) s)
          (λ ret. if is_err ret then pure ret else upload w d ds) run in
      let (good, others) = passed ret s1 (upload w d ds) rest in
      let r = lib.decrypt_data (c ++ (0 ∷ [])) (length c) ctx in
      let t1 =
        write-OnTarget api ota_laws lib laws rollback_enable rsa_private_pem p image c ctx s s1
          refuses t (rw good at wrote) in
      rw (← append_assoc image (bytes_of r.out r.out_len) (decrypted_image lib r.ctx (d ∷ ds)))
        (upload-Holds p (image ++ bytes_of r.out r.out_len) d ds r.ctx s1 s' refuses t1 others)

  -- Where ESP-IDF does what it documents and refuses to write from NULL, and the library does what
  -- `DecryptLaws` says, an update with an encrypted image whose calls succeed leaves the device booting
  -- from the partition for the next update; this holds what the library has made of the chunks, in order,
  -- from the context that it gave for the private key, and the library has accepted the image at its end.
  pub update-decrypted_image :
      (p : ℕ) (c : Bytes) (cs : List Bytes) (s s1 s2 : PreEncOta api.Dev lib.Ctx)
      → RefusesNull api
      → api.esp_ota_get_next_update_partition s.dev ≡ some p
      → start_ota_ws api lib rollback_enable rsa_private_pem s ≡ done esp_ok s1
      → upload (pre_encrypted api lib rollback_enable rsa_private_pem) c cs s1 ≡ done esp_ok s2
      → (ctx : lib.Ctx) × (lib.decrypt_start rsa_private_pem s.heap.last ≡ some ctx)
        × (api.esp_ota_get_boot_partition s2.dev ≡ some p)
        × (ota_laws.contents p s2.dev ≡ decrypted_image lib ctx (c ∷ cs))
        × (lib.decrypt_end (context_after lib ctx (c ∷ cs)) ≡ esp_ok)
  update-decrypted_image p c cs s s1 s2 refuses next starts run =
      let (ctx, made, t) = start-OnTarget p s s1 next starts in
      let (boots, holds, accepted) = upload-Holds p [] c cs ctx s1 s2 refuses t run in
      (ctx, made, boots, holds, accepted)
