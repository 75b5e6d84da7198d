-- ===== src/PreEncrypted/Library.antt =====
-- The calls of the decryption library and of `free`, with what they do to the heap.
use ota_ws_update.Base.{ℕ, suc, Option, none, some, ◌==◌, if◌then◌else◌, Bytes}
use ota_ws_update.Esp.{
  EspErr, esp_ok, esp_err_invalid_arg, done, crash, use_after_free, double_free, M, pure, ◌>>◌,
}
use ota_ws_update.EncryptedImg.{OutEffect, keep, resize, lost, EncryptedImg, update}
use ota_ws_update.PreEncrypted.{PreEncOta}

module _ (Dev : Type 0) (lib : EncryptedImg) where
  abbrev pub Call : Type 0 → Type 0
  Call = M (PreEncOta Dev lib.Ctx)

  -- Writing one entry of the heap's two maps.
  abbrev pub put_ctx : ℕ → Option lib.Ctx → PreEncOta Dev lib.Ctx → PreEncOta Dev lib.Ctx
  put_ctx p c s = record s { heap = record (s.heap) { ctx_at = update s.heap.ctx_at p c } }

  abbrev pub put_buf : ℕ → Option Bytes → PreEncOta Dev lib.Ctx → PreEncOta Dev lib.Ctx
  put_buf p b s = record s { heap = record (s.heap) { buf_at = update s.heap.buf_at p b } }

  -- `free` of a buffer whose address is not NULL
  unfoldable pub free_buf : ℕ → Call (Unit {0})
  free_buf p s = elim (s.heap.buf_at p) [
    | none ↦ crash double_free
    | some _ ↦ done tt (put_buf p none s)
  ]

  -- The handle of a live context is cleaned up; the library refuses NULL.
  clean_up : (lib.Ctx → EspErr) → ℕ → Call EspErr
  clean_up ret p s = if p == 0 then done esp_err_invalid_arg s else elim (s.heap.ctx_at p) [
    | none ↦ crash use_after_free
    | some c ↦ done (ret c) (put_ctx p none s)
  ]

  unfoldable pub esp_encrypted_img_decrypt_end : ℕ → Call EspErr
  unfolding clean_up
  esp_encrypted_img_decrypt_end = clean_up lib.decrypt_end

  unfoldable pub esp_encrypted_img_decrypt_abort : ℕ → Call EspErr
  unfolding clean_up
  esp_encrypted_img_decrypt_abort = clean_up (λ _. esp_ok)

  -- A new handle, 0 for NULL where the library could not allocate one.
  unfoldable pub esp_encrypted_img_decrypt_start : Bytes → Call ℕ
  esp_encrypted_img_decrypt_start cfg s =
      let p = suc s.heap.last in
      elim (lib.decrypt_start cfg s.heap.last) [
        | none ↦ done 0 s
        | some c ↦ done p (record s {
          heap = record (s.heap) { last = p; ctx_at = update s.heap.ctx_at p (some c) };
        })
      ]

  -- A buffer of this content, which the arguments' `data_out` points to.
  new_out : Bytes → Call (Unit {0})
  new_out bytes s =
      let p = suc s.heap.last in
      done tt (record s {
        enc_arg = record (s.enc_arg) { data_out = p };
        heap = record (s.heap) { last = p; buf_at = update s.heap.buf_at p (some bytes) };
      })

  -- `realloc(args->data_out, …)`, which gives up the old buffer.
  unfoldable pub set_out : OutEffect → Call (Unit {0})
  unfolding free_buf new_out
  set_out keep s = done tt s
  set_out lost s = done tt (record s { enc_arg = record (s.enc_arg) { data_out = 0 } })
  set_out (resize bytes) s =
      if s.enc_arg.data_out == 0
      then new_out bytes s
      else (free_buf s.enc_arg.data_out >> new_out bytes) s

  unfoldable pub set_out_len : Option ℕ → Call (Unit {0})
  set_out_len none s = done tt s
  set_out_len (some n) s = done tt (record s { enc_arg = record (s.enc_arg) { data_out_len = n } })

  -- On the static `enc_arg`; the library refuses a handle or an input that is NULL.
  unfoldable pub esp_encrypted_img_decrypt_data : ℕ → Call EspErr
  unfolding set_out set_out_len
  esp_encrypted_img_decrypt_data p s =
      if p == 0 then done esp_err_invalid_arg s else elim s.enc_arg.data_in [
        | none ↦ done esp_err_invalid_arg s
        | some input ↦ elim (s.heap.ctx_at p) [
          | none ↦ crash use_after_free
          | some c ↦
              let r = lib.decrypt_data input s.enc_arg.data_in_len c in
              (do set_out r.out; set_out_len r.out_len; pure r.ret) (put_ctx p (some r.ctx) s)
        ]
      ]

  -- The memory that `enc_arg.data_out` points to.
  unfoldable pub pointee : Call (Option Bytes)
  pointee s =
      if s.enc_arg.data_out == 0 then done none s else elim (s.heap.buf_at s.enc_arg.data_out) [
        | none ↦ crash use_after_free
        | some b ↦ done (some b) s
      ]
