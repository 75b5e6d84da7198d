-- ===== src/PreEncrypted/Output.antt =====
-- The call of `esp_encrypted_img_decrypt_data`: what the static variables point to stays allocated.
use ota_ws_update.Base.{
  ℕ, suc, ◌≤◌, ◌≡◌, refl, ◌⊎◌, inl, inr, true, false, Option, none, some, arith, Bytes, ◌==◌,
  if◌then◌else◌, length, Bool-cases,
}
use ota_ws_update.Esp.{EspErr, done, Outcome, bind, pure, ◌>>◌}
use ota_ws_update.EncryptedImg.{EncryptedImg, Decrypted, update, OutEffect, keep, resize, lost}
use ota_ws_update.Backend.{Ends}
use ota_ws_update.PreEncrypted.{PreEncOta}
use ota_ws_update.PreEncrypted.Library.{
  esp_encrypted_img_decrypt_data, put_ctx, set_out, set_out_len,
}
use ota_ws_update.PreEncrypted.Abort.{IsOwned}
use ota_ws_update.PreEncrypted.Writer.{is_decrypt_error}

-- What a call has done that returns neither ESP_FAIL nor ESP_ERR_INVALID_ARG, with the context c in front
-- of it: the library is still inside the header of the image, and leaves both fields of the output; or
-- it decrypts, and has no byte to give out, or some, which are at `data_out`; or the `realloc` of
-- `data_out` has failed, which leaves NULL there and `data_out_len` as it was.
pub data OutputOf {Ctx : Type 0} (Decoding : Ctx → Type 0) (c : Ctx) (r : Decrypted Ctx)
    : Type 0 where
  in_header : (Decoding c → ⊥) → r.out ≡ keep → r.out_len ≡ none → OutputOf Decoding c r
  no_bytes : Decoding r.ctx → r.out ≡ keep → r.out_len ≡ some 0 → OutputOf Decoding c r
  some_bytes :
      (b : Bytes) (m : ℕ)
      → Decoding r.ctx
      → r.out ≡ resize b
      → r.out_len ≡ some m
      → m ≤ length b
      → OutputOf Decoding c r
  no_memory : Decoding r.ctx → r.out ≡ lost → r.out_len ≡ none → OutputOf Decoding c r

-- What the library does in `esp_encrypted_img_decrypt_data` (esp_encrypted_img.c): `Decoding` says that
-- the context has come to the state ESP_PRE_ENC_DATA_DECODE_STATE, behind the image's header.
pub record DecryptLaws (lib : EncryptedImg) : Type 1 where
  pub Decoding : lib.Ctx → Type 0
  pub output :
      (input : Bytes) (n : ℕ) (c : lib.Ctx)
      → let r = lib.decrypt_data input n c in is_decrypt_error r.ret ≡ false → OutputOf Decoding c r

-- The output buffer holds what `data_out_len` says; without one nothing is read while the header of
-- the image is not checked.
pub record IsReadable {Dev Ctx : Type 0} (s : PreEncOta Dev Ctx) : Type 0 where
  pub output :
      ((s.enc_arg.data_out ≡ 0) × (s.image_header_was_checked ≡ false → s.enc_arg.data_out_len ≡ 0))
      ⊎ ((b : Bytes) × ((s.enc_arg.data_out == 0) ≡ false)
          × (s.heap.buf_at s.enc_arg.data_out ≡ some b)
          × (s.enc_arg.data_out_len ≤ length b))

-- Between two calls of the flash writer: what the static pointers point to is allocated, the output may
-- be read, and there is none announced while the header is not checked.
pub record IsSound {Dev Ctx : Type 0} (s : PreEncOta Dev Ctx) : Type 0 where
  pub owned : IsOwned s
  pub readable : IsReadable s
  pub fresh : s.image_header_was_checked ≡ false → s.enc_arg.data_out_len ≡ 0

pub live_handle :
    {Dev Ctx : Type 0} (s : PreEncOta Dev Ctx)
    → IsOwned s
    → (s.enc_handle == 0) ≡ false
    → (c : Ctx) × (s.heap.ctx_at s.enc_handle ≡ some c)
live_handle s o h = elim o.handle_live [ inl null ↦ absurd (ground arith) | inr live ↦ live ]

zero_address : (p : ℕ) → (p == 0) ≡ true → p ≡ 0
zero_address p h = ground arith

pub suc_address : (n : ℕ) → (suc n == 0) ≡ false
suc_address n = ground arith

pub update_self : {A : Type 0} (f : ℕ → Option A) (p : ℕ) (v : Option A) → update f p v p ≡ v
update_self f p v = ground arith

module _ (Dev : Type 0) (lib : EncryptedImg) (laws : DecryptLaws lib) where
  abbrev pub Ok : Outcome (PreEncOta Dev lib.Ctx) EspErr → Type 0
  Ok = Ends ⊥ (λ ret s'. IsOwned s' × (is_decrypt_error ret ≡ false → IsReadable s'))

  unfoldable pub set_len : Option ℕ → PreEncOta Dev lib.Ctx → PreEncOta Dev lib.Ctx
  set_len none s = s
  set_len (some n) s = record s { enc_arg = record (s.enc_arg) { data_out_len = n } }

  pub IsOwned-set_len :
      (len : Option ℕ) (s : PreEncOta Dev lib.Ctx) → IsOwned s → IsOwned (set_len len s)
  unfolding set_len
  IsOwned-set_len none s o = o
  IsOwned-set_len (some n) s o = record { handle_live = o.handle_live; out_live = o.out_live }

  abbrev pub old_freed : PreEncOta Dev lib.Ctx → ℕ → Option Bytes
  old_freed s =
      if s.enc_arg.data_out == 0
      then s.heap.buf_at
      else update s.heap.buf_at s.enc_arg.data_out none

  -- The state with a new output buffer, and any old one freed.
  abbrev pub renewed : Bytes → PreEncOta Dev lib.Ctx → PreEncOta Dev lib.Ctx
  renewed b s =
      let p = suc s.heap.last in
      record s {
        enc_arg = record (s.enc_arg) { data_out = p };
        heap = record (s.heap) { last = p; buf_at = update (old_freed s) p (some b) };
      }

  pub renewed-live :
      (b : Bytes) (s : PreEncOta Dev lib.Ctx)
      → (renewed b s).heap.buf_at (renewed b s).enc_arg.data_out ≡ some b
  renewed-live b s = update_self (old_freed s) (suc s.heap.last) (some b)

  pub renewed-IsOwned : (b : Bytes) (s : PreEncOta Dev lib.Ctx) → IsOwned s → IsOwned (renewed b s)
  renewed-IsOwned b s o = record {
    handle_live = o.handle_live;
    out_live = inr (b, renewed-live b s);
  }

  pub set_out-renewed :
      (b : Bytes) (s : PreEncOta Dev lib.Ctx)
      → IsOwned s
      → set_out Dev lib (resize b) s ≡ done tt (renewed b s)
  unfolding set_out
  set_out-renewed b s o = ground arith

  pub set_out_len-set_len :
      (len : Option ℕ) (s : PreEncOta Dev lib.Ctx)
      → set_out_len Dev lib len s ≡ done tt (set_len len s)
  unfolding set_out_len set_len
  set_out_len-set_len none s = refl
  set_out_len-set_len (some n) s = refl

  -- The state behind `realloc`.
  unfoldable pub out_state : OutEffect → PreEncOta Dev lib.Ctx → PreEncOta Dev lib.Ctx
  out_state keep s = s
  out_state (resize b) s = renewed b s
  out_state lost s = record s { enc_arg = record (s.enc_arg) { data_out = 0 } }

  out_state-IsOwned :
      (out : OutEffect) (s : PreEncOta Dev lib.Ctx) → IsOwned s → IsOwned (out_state out s)
  unfolding out_state
  out_state-IsOwned keep s o = o
  out_state-IsOwned (resize b) s o = renewed-IsOwned b s o
  out_state-IsOwned lost s o = record { handle_live = o.handle_live; out_live = inl refl }

  pub output_runs :
      (ret : EspErr) (out : OutEffect) (len : Option ℕ) (s : PreEncOta Dev lib.Ctx)
      → IsOwned s
      → bind (set_out Dev lib out s) (λ _. set_out_len Dev lib len >> pure ret)
        ≡ done ret (set_len len (out_state out s))
  unfolding set_out out_state
  output_runs ret keep len s o = rw set_out_len-set_len refl
  output_runs ret (resize b) len s o = rw (set_out-renewed b s o, set_out_len-set_len) refl
  output_runs ret lost len s o = rw set_out_len-set_len refl

  -- No output, in the header of the image and behind it.
  no_bytes-IsReadable : (s : PreEncOta Dev lib.Ctx) → IsReadable s → IsReadable (set_len (some 0) s)
  unfolding set_len
  no_bytes-IsReadable s a = elim a.output [
    | inl (null, _) ↦ record { output = inl (null, λ unchecked. refl) }
    | inr (b, address, live, _) ↦ record { output = inr (b, address, live, omega arith) }
  ]

  output-IsReadable :
      (c : lib.Ctx) (r : Decrypted lib.Ctx) (s : PreEncOta Dev lib.Ctx)
      → IsReadable s
      → (s.image_header_was_checked ≡ false → s.enc_arg.data_out_len ≡ 0)
      → OutputOf laws.Decoding c r
      → IsReadable (set_len r.out_len (out_state r.out s))
  unfolding set_len out_state
  output-IsReadable c r s a fresh (in_header _ out len) = rw (out, len) a
  output-IsReadable c r s a fresh (no_bytes _ out len) = rw (out, len) (no_bytes-IsReadable s a)
  output-IsReadable c r s a fresh (some_bytes b m _ out len within) =
      rw (out, len) (record { output = inr (b, suc_address s.heap.last, renewed-live b s, within) })
  output-IsReadable c r s a fresh (no_memory _ out len) =
      rw (out, len) (record { output = inl (refl, fresh) })

  pub put_ctx-IsOwned :
      (c : lib.Ctx) (s : PreEncOta Dev lib.Ctx)
      → IsOwned s
      → IsOwned (put_ctx Dev lib s.enc_handle (some c) s)
  put_ctx-IsOwned c s o = record {
    handle_live = inr (c, update_self s.heap.ctx_at s.enc_handle (some c));
    out_live = o.out_live;
  }

  -- The call of the library, on what the static variables hold.
  pub decrypt_data-Ok :
      (s : PreEncOta Dev lib.Ctx) (input : Option Bytes)
      → IsSound s
      → s.enc_arg.data_in ≡ input
      → Ok (esp_encrypted_img_decrypt_data Dev lib s.enc_handle s)
  unfolding esp_encrypted_img_decrypt_data
  decrypt_data-Ok s none o e = ground (arith, o.owned)
  decrypt_data-Ok s (some input) o e = elim (Bool-cases (s.enc_handle == 0)) [
    | inl null ↦ rw null (o.owned, λ good. cc)
    | inr some_handle ↦
        let (c, live) = live_handle s o.owned some_handle in
        let r = lib.decrypt_data input s.enc_arg.data_in_len c in
        let s1 = put_ctx Dev lib s.enc_handle (some r.ctx) s in
        let owned = put_ctx-IsOwned r.ctx s o.owned in
        simp (some_handle, e, live)
          (rw (output_runs r.ret r.out r.out_len s1 owned) (
            IsOwned-set_len r.out_len (out_state r.out s1) (out_state-IsOwned r.out s1 owned),
            λ good.
                output-IsReadable c r s1 (record { output = o.readable.output }) o.fresh
                  (laws.output input s.enc_arg.data_in_len c good),
          ))
  ]
