-- ===== src/EncryptedImg.antt =====
-- The vendored decryption library esp_encrypted_img, as far as the flash writer sees it: a parameter
-- of the model, with the memory that its calls allocate and free. Its header documents that
-- `esp_encrypted_img_decrypt_end` and `_abort` clean up the handle, and that the output buffer is
-- reallocated by the library and freed by the caller.
use ota_ws_update.Base.{ℕ, ◌==◌, if◌then◌else◌, Option, Bytes}
use ota_ws_update.Esp.{EspErr}

-- What `esp_encrypted_img_decrypt_data` does to `args->data_out`.
pub data OutEffect : Type 0 where
  keep : OutEffect
  resize : Bytes → OutEffect
  lost : OutEffect

-- A call of `esp_encrypted_img_decrypt_data`: the context behind the handle, what is returned, and
-- what becomes of `data_out` and `data_out_len` (`none` leaves it).
pub record Decrypted (Ctx : Type 0) : Type 0 where
  pub ctx : Ctx
  pub ret : EspErr
  pub out : OutEffect
  pub out_len : Option ℕ

-- `decrypt_start` is given the key and the allocator's state, on which its failure may depend.
pub record EncryptedImg : Type 1 where
  pub Ctx : Type 0
  pub decrypt_start : Bytes → ℕ → Option Ctx
  pub decrypt_data : Bytes → ℕ → Ctx → Decrypted Ctx
  pub decrypt_end : Ctx → EspErr

-- The heap: contexts and buffers by address, and a counter below every address not yet given out.
-- The address 0 is NULL.
pub record Heap (Ctx : Type 0) : Type 0 where
  pub last : ℕ
  pub ctx_at : ℕ → Option Ctx
  pub buf_at : ℕ → Option Bytes

abbrev pub update : {A : Type 0} → (ℕ → Option A) → ℕ → Option A → ℕ → Option A
update f p v q = if p == q then v else f q
