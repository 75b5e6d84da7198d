-- ===== src/PreEncrypted/Target.antt =====
-- The flash writer for encrypted images while an update goes well: what the partition holds.
use ota_ws_update.Base.{
  ℕ, ◌≡◌, refl, ◌∙◌, inr, Bool, true, false, Option, some, [], ◌++◌, arith, Bytes, ◌==◌, take,
  append-nil,
}
use ota_ws_update.Esp.{EspErr, esp_ok}
use ota_ws_update.Device.{OtaApi, OtaLaws}
use ota_ws_update.EncryptedImg.{EncryptedImg, OutEffect, keep, resize}
use ota_ws_update.PreEncrypted.{PreEncOta}
use ota_ws_update.PreEncrypted.Library.{put_ctx}
use ota_ws_update.PreEncrypted.Abort.{IsOwned}
use ota_ws_update.PreEncrypted.Output.{DecryptLaws, set_len, renewed-live, update_self, suc_address}
use ota_ws_update.PreEncrypted.Effect.{fed, kept, grown}

-- The output of a call of the library.
unfoldable pub bytes_of : OutEffect → Option ℕ → Bytes
bytes_of (resize b) (some m) = take m b
bytes_of _ _ = []

pub bytes_of-keep : (len : Option ℕ) → bytes_of keep len ≡ []
unfolding bytes_of
bytes_of-keep len = refl

pub bytes_of-resize : (b : Bytes) (m : ℕ) → bytes_of (resize b) (some m) ≡ take m b
unfolding bytes_of
bytes_of-resize b m = refl

module _ (api : OtaApi) (ota_laws : OtaLaws api) (lib : EncryptedImg) (laws : DecryptLaws lib)
    (rollback_enable : Bool) (rsa_private_pem : Bytes) where
  -- The handle is bound to partition p, which holds `image` so far, and the decryption goes on with
  -- `ctx`. If the header of the image was checked there was output and the library is behind its own
  -- header; if not, none is announced.
  pub record OnTarget (p : ℕ) (image : Bytes) (ctx : lib.Ctx) (s : PreEncOta api.Dev lib.Ctx)
      : Type 0 where
    pub partition : s.update_partition ≡ some p
    pub bound : ota_laws.target s.update_handle s.dev ≡ some p
    pub holds : ota_laws.contents p s.dev ≡ image
    pub some_handle : (s.enc_handle == 0) ≡ false
    pub live : s.heap.ctx_at s.enc_handle ≡ some ctx
    pub owned : IsOwned s
    pub had_output : s.image_header_was_checked ≡ true → (s.enc_arg.data_out == 0) ≡ false
    pub decoding : s.image_header_was_checked ≡ true → laws.Decoding ctx
    pub fresh : s.image_header_was_checked ≡ false → s.enc_arg.data_out_len ≡ 0

  abbrev pub wrote : ℕ → Bytes → PreEncOta api.Dev lib.Ctx → EspErr × api.Dev
  wrote n b s = api.esp_ota_write s.update_handle (some (take n b)) s.dev

  written-pair :
      (n : ℕ) (b : Bytes) (s : PreEncOta api.Dev lib.Ctx)
      → (wrote n b s).0 ≡ esp_ok
      → api.esp_ota_write s.update_handle (some (take n b)) s.dev ≡ (esp_ok, (wrote n b s).1)
  written-pair n b s good = ground arith

  -- After output, and after none.
  pub grown-OnTarget :
      (p n m : ℕ) (image input b : Bytes) (ctx ctx' : lib.Ctx) (s s' : PreEncOta api.Dev lib.Ctx)
      → OnTarget p image ctx s
      → laws.Decoding ctx'
      → (wrote m b s).0 ≡ esp_ok
      → s' ≡ record (grown api lib rollback_enable rsa_private_pem laws input n ctx' b m s) {
        image_header_was_checked = true;
        dev = (wrote m b s).1;
      }
      → OnTarget p (image ++ take m b) ctx' s'
  unfolding set_len
  grown-OnTarget p n m image input b ctx ctx' s s' t decodes good e =
      let after =
        ota_laws.write_appends p s.update_handle (take m b) s.dev (wrote m b s).1 t.bound
          (written-pair m b s good) in
      let made =
        put_ctx api.Dev lib s.enc_handle (some ctx')
          (fed api lib rollback_enable rsa_private_pem laws input n s) in
      rw e (record {
        partition = t.partition;
        bound = after.0;
        holds = after.1 ∙ rw t.holds refl;
        some_handle = t.some_handle;
        live = update_self s.heap.ctx_at s.enc_handle (some ctx');
        owned = record {
          handle_live = inr (ctx', update_self s.heap.ctx_at s.enc_handle (some ctx'));
          out_live = inr (b, renewed-live api.Dev lib laws b made);
        };
        had_output = λ _. suc_address s.heap.last;
        decoding = λ _. decodes;
        fresh = λ unchecked. cc;
      })

  pub kept-OnTarget :
      (p n : ℕ) (image input b : Bytes) (ctx ctx' : lib.Ctx) (s s' : PreEncOta api.Dev lib.Ctx)
      → OnTarget p image ctx s
      → laws.Decoding ctx'
      → (s.enc_arg.data_out == 0) ≡ false
      → s.heap.buf_at s.enc_arg.data_out ≡ some b
      → (wrote 0 b s).0 ≡ esp_ok
      → s' ≡ record (kept api lib rollback_enable rsa_private_pem laws input n ctx' s) {
        image_header_was_checked = true;
        dev = (wrote 0 b s).1;
      }
      → OnTarget p image ctx' s'
  unfolding set_len
  kept-OnTarget p n image input b ctx ctx' s s' t decodes some_out buffer good e =
      let after =
        ota_laws.write_appends p s.update_handle [] s.dev (wrote 0 b s).1 t.bound
          (written-pair 0 b s good) in
      rw e (record {
        partition = t.partition;
        bound = after.0;
        holds = after.1 ∙ append-nil (ota_laws.contents p s.dev) ∙ t.holds;
        some_handle = t.some_handle;
        live = update_self s.heap.ctx_at s.enc_handle (some ctx');
        owned = record {
          handle_live = inr (ctx', update_self s.heap.ctx_at s.enc_handle (some ctx'));
          out_live = inr (b, buffer);
        };
        had_output = λ _. some_out;
        decoding = λ _. decodes;
        fresh = λ unchecked. cc;
      })
