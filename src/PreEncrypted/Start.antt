-- ===== src/PreEncrypted/Start.antt =====
-- `start_ota_ws`: a new context for each update; one left from an update before is forgotten.
use ota_ws_update.Base.{◌≡◌, ◌≢◌, ◌≤◌, inl, inr, Bool, false, some, arith, Bytes, ◌==◌}
use ota_ws_update.Esp.{esp_ok, done}
use ota_ws_update.Device.{OtaApi}
use ota_ws_update.EncryptedImg.{EncryptedImg}
use ota_ws_update.PreEncrypted.{PreEncOta}
use ota_ws_update.PreEncrypted.Abort.{IsOwned}
use ota_ws_update.PreEncrypted.Writer.{start_ota_ws}

module _ (api : OtaApi) (lib : EncryptedImg) (rollback_enable : Bool)
    (rsa_private_pem : Bytes) where
  pub started :
      (s s' : PreEncOta api.Dev lib.Ctx)
      → start_ota_ws api lib rollback_enable rsa_private_pem s ≡ done esp_ok s'
      → (c : lib.Ctx) × (lib.decrypt_start rsa_private_pem s.heap.last ≡ some c)
        × (s'.heap.ctx_at s'.enc_handle ≡ some c)
        × ((s'.enc_handle == 0) ≡ false)
        × (s'.enc_arg.data_out ≡ 0)
  unfolding start_ota_ws
  started s s' run = ground arith

  -- A start that succeeds leaves, from whatever state, a context that is allocated behind a handle
  -- that is not NULL, and no output buffer.
  pub start_ota_ws-IsOwned :
      (s s' : PreEncOta api.Dev lib.Ctx)
      → start_ota_ws api lib rollback_enable rsa_private_pem s ≡ done esp_ok s'
      → IsOwned s' × ((s'.enc_handle == 0) ≡ false)
  start_ota_ws-IsOwned s s' run =
      let (c, _, live, address, null) = started s s' run in
      (record { handle_live = inr (c, live); out_live = inl null }, address)

  -- The context of an update that was not ended or aborted stays allocated when the next update
  -- starts, and no static variable points to it any more.
  pub start_ota_ws-leak :
      (s s' : PreEncOta api.Dev lib.Ctx) (c : lib.Ctx)
      → (s.enc_handle == 0) ≡ false
      → s.enc_handle ≤ s.heap.last
      → s.heap.ctx_at s.enc_handle ≡ some c
      → start_ota_ws api lib rollback_enable rsa_private_pem s ≡ done esp_ok s'
      → (s'.heap.ctx_at s.enc_handle ≡ some c) × (s'.enc_handle ≢ s.enc_handle)
  unfolding start_ota_ws
  start_ota_ws-leak s s' c h old live run = ground arith
