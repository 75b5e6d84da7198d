-- ===== src/PreEncrypted.antt =====
-- source/ota_ws_update_esp_preencrypted.c: the flash writer for encrypted images. Its state is here,
-- its calls of the decryption library in Library, and its functions in Writer.
pub mod Library
pub mod Writer
pub mod Abort
pub mod Output
pub mod Write
pub mod End
pub mod Start
pub mod Effect
pub mod Target
pub mod Taken
pub mod Image
pub mod Boot
pub mod Keeps
use ota_ws_update.Base.{ℕ, Bool, false, Option, none, [], Bytes}
use ota_ws_update.Esp.{done, M}
use ota_ws_update.EncryptedImg.{Heap}

-- `pre_enc_decrypt_arg_t`; `data_out` is an address, 0 for NULL.
pub record DecryptArg : Type 0 where
  pub data_in : Option Bytes
  pub data_in_len : ℕ
  pub data_out : ℕ
  pub data_out_len : ℕ

abbrev pub cleared_arg : DecryptArg
cleared_arg = record { data_in = none; data_in_len = 0; data_out = 0; data_out_len = 0 }

-- The static variables, the heap and the device. `enc_handle` is an address, 0 for NULL.
pub record PreEncOta (Dev Ctx : Type 0) : Type 0 where
  pub update_partition : Option ℕ
  pub image_header_was_checked : Bool
  pub update_handle : ℕ
  pub enc_handle : ℕ
  pub enc_cfg : Bytes
  pub enc_arg : DecryptArg
  pub heap : Heap Ctx
  pub dev : Dev

abbrev pub initial : {Dev Ctx : Type 0} → Dev → PreEncOta Dev Ctx
initial d = record {
  update_partition = none;
  image_header_was_checked = false;
  update_handle = 0;
  enc_handle = 0;
  enc_cfg = [];
  enc_arg = cleared_arg;
  heap = record { last = 0; ctx_at = λ _. none; buf_at = λ _. none };
  dev = d;
}

abbrev pub on_dev : {Dev Ctx A : Type 0} → (Dev → A × Dev) → M (PreEncOta Dev Ctx) A
on_dev f s = let (a, d) = f s.dev in done a (record s { dev = d })
