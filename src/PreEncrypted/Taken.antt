-- ===== src/PreEncrypted/Taken.antt =====
-- `write_ota_ws` of the flash writer for encrypted images: the decrypted bytes go to the partition.
use ota_ws_update.Base.{
  ℕ, ◌≤◌, ◌≡◌, refl, inl, inr, Bool, false, none, some, [], ◌∷◌, ◌++◌, arith, Bytes, ◌==◌, length,
  take, append-nil, Bool-cases,
}
use ota_ws_update.Esp.{EspErr, esp_ok, esp_err_invalid_arg, done}
use ota_ws_update.Device.{OtaApi, OtaLaws, RefusesNull}
use ota_ws_update.EncryptedImg.{EncryptedImg, keep, resize, lost}
use ota_ws_update.PreEncrypted.{PreEncOta}
use ota_ws_update.PreEncrypted.Library.{esp_encrypted_img_decrypt_data, put_ctx}
use ota_ws_update.PreEncrypted.Output.{
  DecryptLaws, in_header, no_bytes, some_bytes, no_memory, set_len, out_state, renewed-live,
  suc_address,
}
use ota_ws_update.PreEncrypted.Writer.{is_decrypt_error, decrypted, write_ota_ws}
use ota_ws_update.PreEncrypted.Effect.{
  fed, kept, grown, decrypt_data_runs, decrypted-wrote, decrypted-short, decrypted-null,
  abort_with-ret,
}
use ota_ws_update.PreEncrypted.Target.{
  OnTarget, bytes_of, bytes_of-keep, bytes_of-resize, grown-OnTarget, kept-OnTarget,
}

module _ (api : OtaApi) (ota_laws : OtaLaws api) (lib : EncryptedImg) (laws : DecryptLaws lib)
    (rollback_enable : Bool) (rsa_private_pem : Bytes) where
  abbrev On : ℕ → Bytes → lib.Ctx → PreEncOta api.Dev lib.Ctx → Type 0
  On = OnTarget api ota_laws lib laws rollback_enable rsa_private_pem

  -- The state in which the call of the library returns, with what the flash writer goes on.
  abbrev called : Bytes → ℕ → lib.Ctx → PreEncOta api.Dev lib.Ctx → PreEncOta api.Dev lib.Ctx
  called input n ctx s =
      let r = lib.decrypt_data input n ctx in
      set_len api.Dev lib laws r.out_len (
        out_state api.Dev lib laws r.out (
          put_ctx api.Dev lib s.enc_handle (some r.ctx)
            (fed api lib rollback_enable rsa_private_pem laws input n s)))

  write-called :
      (p : ℕ) (image input : Bytes) (n : ℕ) (ctx : lib.Ctx) (s s' : PreEncOta api.Dev lib.Ctx)
      → On p image ctx s
      → write_ota_ws api lib rollback_enable rsa_private_pem n (some input) s ≡ done esp_ok s'
      → decrypted api lib rollback_enable rsa_private_pem
          (lib.decrypt_data input n ctx).ret
          (called input n ctx s)
        ≡ done esp_ok s'
  unfolding write_ota_ws
  write-called p image input n ctx s s' t run =
      rw
        (decrypt_data_runs api lib rollback_enable rsa_private_pem laws s input n ctx t.some_handle
          t.live t.owned)
        at run

  -- What is written is the whole output of a call that reported no error.
  write-not_refused :
      (ret : EspErr) (s s' : PreEncOta api.Dev lib.Ctx)
      → decrypted api lib rollback_enable rsa_private_pem ret s ≡ done esp_ok s'
      → is_decrypt_error ret ≡ false
  unfolding decrypted
  write-not_refused ret s s' run = elim (Bool-cases (is_decrypt_error ret)) [
    | inl bad ↦ absurd (
        abort_with-ret api lib rollback_enable rsa_private_pem ret s s' (ground arith)
          (rw bad at run))
    | inr good ↦ good
  ]

  -- No write succeeds while the library is inside its header,
  header-refused :
      (p : ℕ) (image input : Bytes) (n : ℕ) (ctx : lib.Ctx) (s s' : PreEncOta api.Dev lib.Ctx)
      → On p image ctx s
      → let r = lib.decrypt_data input n ctx in
        is_decrypt_error r.ret ≡ false
        → (laws.Decoding ctx → ⊥)
        → r.out ≡ keep
        → r.out_len ≡ none
        → decrypted api lib rollback_enable rsa_private_pem r.ret (called input n ctx s)
          ≡ done esp_ok s'
        → ⊥
  unfolding set_len out_state
  header-refused p image input n ctx s s' t good inside out len run =
      let r = lib.decrypt_data input n ctx in
      elim (Bool-cases s.image_header_was_checked) [
        | inl checked ↦ inside (t.decoding checked)
        | inr unchecked ↦
            decrypted-short api lib rollback_enable rsa_private_pem r.ret _ s' good
              (t.fresh unchecked) unchecked (rw (out, len) at run)
      ]

  -- nor where it could not allocate its output.
  lost-refused :
      (p : ℕ) (image input : Bytes) (n : ℕ) (ctx : lib.Ctx) (s s' : PreEncOta api.Dev lib.Ctx)
      → On p image ctx s
      → RefusesNull api
      → let r = lib.decrypt_data input n ctx in
        is_decrypt_error r.ret ≡ false
        → r.out ≡ lost
        → r.out_len ≡ none
        → decrypted api lib rollback_enable rsa_private_pem r.ret (called input n ctx s)
          ≡ done esp_ok s'
        → ⊥
  unfolding set_len out_state
  lost-refused p image input n ctx s s' t refuses good out len run =
      let r = lib.decrypt_data input n ctx in
      elim (Bool-cases s.image_header_was_checked) [
        | inl checked ↦
            decrypted-null api lib rollback_enable rsa_private_pem r.ret _ s' refuses good refl
              checked (rw (out, len) at run)
        | inr unchecked ↦
            decrypted-short api lib rollback_enable rsa_private_pem r.ret _ s' good
              (t.fresh unchecked) unchecked (rw (out, len) at run)
      ]

  write-kept :
      (p : ℕ) (image input : Bytes) (n : ℕ) (ctx : lib.Ctx) (s s' : PreEncOta api.Dev lib.Ctx)
      → On p image ctx s
      → let r = lib.decrypt_data input n ctx in
        is_decrypt_error r.ret ≡ false
        → laws.Decoding r.ctx
        → r.out ≡ keep
        → r.out_len ≡ some 0
        → decrypted api lib rollback_enable rsa_private_pem r.ret (called input n ctx s)
          ≡ done esp_ok s'
        → On p image r.ctx s'
  unfolding set_len out_state
  write-kept p image input n ctx s s' t good decodes out len run =
      let r = lib.decrypt_data input n ctx in
      let s1 = kept api lib rollback_enable rsa_private_pem laws input n r.ctx s in
      let rest = rw (out, len) at run in
      elim (Bool-cases s.image_header_was_checked) [
        | inl checked ↦ elim t.owned.out_live [
          | inl null ↦ absurd (ground (arith, t.had_output checked))
          | inr (b, buffer) ↦
              let (wrote_ok, e) =
                decrypted-wrote api lib rollback_enable rsa_private_pem r.ret b s1 s' good
                  (t.had_output checked) buffer (omega arith) rest in
              kept-OnTarget api ota_laws lib laws rollback_enable rsa_private_pem p n image input b
                ctx r.ctx s s' t decodes (t.had_output checked) buffer wrote_ok e
        ]
        | inr unchecked ↦ absurd (
            decrypted-short api lib rollback_enable rsa_private_pem r.ret s1 s' good refl unchecked
              rest)
      ]

  write-grown :
      (p : ℕ) (image input : Bytes) (n m : ℕ) (b : Bytes) (ctx : lib.Ctx)
      (s s' : PreEncOta api.Dev lib.Ctx)
      → On p image ctx s
      → let r = lib.decrypt_data input n ctx in
        is_decrypt_error r.ret ≡ false
        → laws.Decoding r.ctx
        → r.out ≡ resize b
        → r.out_len ≡ some m
        → m ≤ length b
        → decrypted api lib rollback_enable rsa_private_pem r.ret (called input n ctx s)
          ≡ done esp_ok s'
        → On p (image ++ take m b) r.ctx s'
  unfolding set_len out_state
  write-grown p image input n m b ctx s s' t good decodes out len within run =
      let r = lib.decrypt_data input n ctx in
      let made =
        put_ctx api.Dev lib s.enc_handle (some r.ctx)
          (fed api lib rollback_enable rsa_private_pem laws input n s) in
      let s1 = grown api lib rollback_enable rsa_private_pem laws input n r.ctx b m s in
      let (wrote_ok, e) =
        decrypted-wrote api lib rollback_enable rsa_private_pem r.ret b s1 s' good
          (suc_address s.heap.last) (renewed-live api.Dev lib laws b made) within
          (rw (out, len) at run) in
      grown-OnTarget api ota_laws lib laws rollback_enable rsa_private_pem p n m image input b ctx
        r.ctx s s' t decodes wrote_ok e

  -- A write of n bytes at a pointer that is not NULL.
  pub write_input-OnTarget :
      (p : ℕ) (image input : Bytes) (n : ℕ) (ctx : lib.Ctx) (s s' : PreEncOta api.Dev lib.Ctx)
      → RefusesNull api
      → On p image ctx s
      → write_ota_ws api lib rollback_enable rsa_private_pem n (some input) s ≡ done esp_ok s'
      → let r = lib.decrypt_data input n ctx in On p (image ++ bytes_of r.out r.out_len) r.ctx s'
  write_input-OnTarget p image input n ctx s s' refuses t run =
      let r = lib.decrypt_data input n ctx in
      let rest = write-called p image input n ctx s s' t run in
      let good = write-not_refused r.ret (called input n ctx s) s' rest in
      elim (laws.output input n ctx good) [
        | in_header inside out len ↦
            absurd (header-refused p image input n ctx s s' t good inside out len rest)
        | no_bytes decodes out len ↦
            rw (out, len, bytes_of-keep, append-nil image)
              (write-kept p image input n ctx s s' t good decodes out len rest)
        | some_bytes b m decodes out len within ↦
            rw (out, len, bytes_of-resize)
              (write-grown p image input n m b ctx s s' t good decodes out len within rest)
        | no_memory decodes out len ↦
            absurd (lost-refused p image input n ctx s s' t refuses good out len rest)
      ]

  -- The library refuses NULL, and the flash writer aborts.
  pub write_null-refused :
      (n : ℕ) (s s' : PreEncOta api.Dev lib.Ctx)
      → (s.enc_handle == 0) ≡ false
      → write_ota_ws api lib rollback_enable rsa_private_pem n none s ≡ done esp_ok s'
      → ⊥
  unfolding write_ota_ws esp_encrypted_img_decrypt_data decrypted
  write_null-refused n s s' address run =
      let fed_null = record s {
        enc_arg = record (s.enc_arg) { data_in = none; data_in_len = n };
      } in
      abort_with-ret api lib rollback_enable rsa_private_pem esp_err_invalid_arg fed_null s' refl
        (simp address at run)

  -- A write of a chunk that comes with a zero behind it.
  pub write-OnTarget :
      (p : ℕ) (image c : Bytes) (ctx : lib.Ctx) (s s' : PreEncOta api.Dev lib.Ctx)
      → RefusesNull api
      → On p image ctx s
      → write_ota_ws api lib rollback_enable rsa_private_pem (length c) (some (c ++ (0 ∷ []))) s
        ≡ done esp_ok s'
      → let r = lib.decrypt_data (c ++ (0 ∷ [])) (length c) ctx in
        On p (image ++ bytes_of r.out r.out_len) r.ctx s'
  write-OnTarget p image c ctx s s' refuses t run =
      write_input-OnTarget p image (c ++ (0 ∷ [])) (length c) ctx s s' refuses t run
