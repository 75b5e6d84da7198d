-- ===== src/PreEncrypted/Abort.antt =====
-- `abort_ota_ws`: what it releases, and that it may be called again.
use ota_ws_update.Base.{◌≡◌, refl, ◌⊎◌, Bool, none, some, arith, Bytes, ◌==◌, if◌then◌else◌}
use ota_ws_update.Esp.{esp_ok, done}
use ota_ws_update.Device.{OtaApi}
use ota_ws_update.EncryptedImg.{EncryptedImg, update}
use ota_ws_update.PreEncrypted.{PreEncOta, cleared_arg}
use ota_ws_update.PreEncrypted.Writer.{abort_ota_ws}

-- A static pointer is NULL, or what it points to is allocated.
pub record IsOwned {Dev Ctx : Type 0} (s : PreEncOta Dev Ctx) : Type 0 where
  pub handle_live : (s.enc_handle ≡ 0) ⊎ ((c : Ctx) × (s.heap.ctx_at s.enc_handle ≡ some c))
  pub out_live :
      (s.enc_arg.data_out ≡ 0) ⊎ ((b : Bytes) × (s.heap.buf_at s.enc_arg.data_out ≡ some b))

-- Nothing is held any more.
pub record IsReleased {Dev Ctx : Type 0} (s : PreEncOta Dev Ctx) : Type 0 where
  pub no_handle : s.enc_handle ≡ 0
  pub no_update : s.update_handle ≡ 0
  pub no_arg : s.enc_arg ≡ cleared_arg

module _ (api : OtaApi) (lib : EncryptedImg) (rollback_enable : Bool)
    (rsa_private_pem : Bytes) where
  -- The state after an abort: the device has aborted the update that it was told to begin, the
  -- context and the output buffer are freed, all else on the heap is as it was.
  abbrev pub aborted : PreEncOta api.Dev lib.Ctx → PreEncOta api.Dev lib.Ctx
  aborted s = record s {
    update_handle = 0;
    enc_handle = 0;
    enc_arg = cleared_arg;
    heap = record (s.heap) {
      ctx_at = if s.enc_handle == 0 then s.heap.ctx_at else update s.heap.ctx_at s.enc_handle none;
      buf_at =
          if s.enc_arg.data_out == 0
          then s.heap.buf_at
          else update s.heap.buf_at s.enc_arg.data_out none;
    };
    dev = if s.update_handle == 0 then s.dev else (api.esp_ota_abort s.update_handle s.dev).1;
  }

  pub abort-IsOwned :
      (s : PreEncOta api.Dev lib.Ctx)
      → IsOwned s
      → abort_ota_ws api lib rollback_enable rsa_private_pem s ≡ done esp_ok (aborted s)
  unfolding abort_ota_ws
  abort-IsOwned s o = ground arith

  -- Aborting again changes nothing.
  pub abort-IsReleased :
      (s : PreEncOta api.Dev lib.Ctx)
      → IsReleased s
      → abort_ota_ws api lib rollback_enable rsa_private_pem s ≡ done esp_ok s
  unfolding abort_ota_ws
  abort-IsReleased s r = ground arith

  -- If what the static pointers point to is allocated, an abort succeeds: it aborts the device's
  -- update if one was begun, frees the context and the output buffer, leaves all else on the heap,
  -- and sets the static variables to zero. A second abort then succeeds too and changes nothing.
  pub abort_twice :
      (s : PreEncOta api.Dev lib.Ctx)
      → IsOwned s
      → (abort_ota_ws api lib rollback_enable rsa_private_pem s ≡ done esp_ok (aborted s))
        × (abort_ota_ws api lib rollback_enable rsa_private_pem (aborted s)
            ≡ done esp_ok (aborted s))
  abort_twice s o = (
    abort-IsOwned s o,
    abort-IsReleased (aborted s) (record { no_handle = refl; no_update = refl; no_arg = refl }),
  )
