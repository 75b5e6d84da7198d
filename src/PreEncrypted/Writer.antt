-- ===== src/PreEncrypted/Writer.antt =====
-- The functions of the flash writer for encrypted images. CONFIG_BOOTLOADER_APP_ROLLBACK_ENABLE is
-- the parameter `rollback_enable`, and the embedded private key is `rsa_private_pem`.
use ota_ws_update.Base.{ℕ, Bool, true, false, Option, none, some, ltb, ◌==◌, if◌then◌else◌, Bytes}
use ota_ws_update.Esp.{
  EspErr, esp_ok, esp_fail, esp_err_invalid_arg, is_err, done, reboot, null_dereference, M, pure,
  fault, ◌>>=◌, ◌>>◌, modify, get,
}
use ota_ws_update.Memory.{span, copy_from}
use ota_ws_update.Device.{OtaApi, Begin, handle, refused, ImgState, pending_verify, prefix_size}
use ota_ws_update.EncryptedImg.{EncryptedImg}
use ota_ws_update.Backend.{Backend}
use ota_ws_update.PreEncrypted.{PreEncOta, cleared_arg, on_dev}
use ota_ws_update.PreEncrypted.Library.{
  free_buf, esp_encrypted_img_decrypt_start, esp_encrypted_img_decrypt_data,
  esp_encrypted_img_decrypt_end, esp_encrypted_img_decrypt_abort, pointee,
}

abbrev is_pending : EspErr × ImgState → Bool
is_pending (esp_ok, pending_verify) = true
is_pending _ = false

-- `ret == ESP_FAIL || ret == ESP_ERR_INVALID_ARG`
abbrev pub is_decrypt_error : EspErr → Bool
is_decrypt_error esp_fail = true
is_decrypt_error esp_err_invalid_arg = true
is_decrypt_error _ = false

module _ (api : OtaApi) (lib : EncryptedImg) (rollback_enable : Bool)
    (rsa_private_pem : Bytes) where
  abbrev pub Call : Type 0 → Type 0
  Call = M (PreEncOta api.Dev lib.Ctx)

  -- The three conditional calls of `abort_ota_ws`.
  abort_decrypt : Call (Unit {0})
  unfolding esp_encrypted_img_decrypt_abort
  abort_decrypt s =
      if s.enc_handle == 0
      then done tt s
      else (esp_encrypted_img_decrypt_abort api.Dev lib s.enc_handle >> pure tt) s

  abort_update : Call (Unit {0})
  abort_update s =
      if s.update_handle == 0
      then done tt s
      else (on_dev (api.esp_ota_abort s.update_handle) >> pure tt) s

  free_out : Call (Unit {0})
  unfolding free_buf
  free_out s =
      if s.enc_arg.data_out == 0 then done tt s else free_buf api.Dev lib s.enc_arg.data_out s

  unfoldable pub abort_ota_ws : Call EspErr
  unfolding abort_decrypt abort_update free_out
  abort_ota_ws = do
    abort_decrypt
    abort_update
    free_out
    modify λ s. record s { enc_handle = 0; update_handle = 0; enc_arg = cleared_arg }
    pure esp_ok

  -- `abort_ota_ws(); return ret;`
  unfoldable pub abort_with : EspErr → Call EspErr
  unfolding abort_ota_ws
  abort_with ret = do abort_ota_ws; pure ret

  -- Behind `esp_ota_begin`.
  unfoldable pub begun : Begin → Call EspErr
  unfolding abort_with
  begun refused = pure esp_fail
  begun (handle h) = do
    modify λ s. record s {
      update_handle = h;
      image_header_was_checked = false;
      enc_cfg = rsa_private_pem;
    }
    p ← esp_encrypted_img_decrypt_start api.Dev lib rsa_private_pem
    modify λ s. record s { enc_handle = p }
    if p == 0
        then abort_with esp_fail
        else (do modify λ s. record s { enc_arg = cleared_arg }; pure esp_ok)

  -- `update_partition` is read for the log before `esp_ota_begin` is given it.
  unfoldable pub begin_update : Option ℕ → Call EspErr
  unfolding begun
  begin_update none = fault null_dereference
  begin_update (some p) = on_dev (api.esp_ota_begin p) >>= begun

  unfoldable pub start_ota_ws : Call EspErr
  unfolding begin_update esp_encrypted_img_decrypt_start
  start_ota_ws s = elim (api.esp_ota_get_boot_partition s.dev) [
    | none ↦ done esp_fail s
    | some configured ↦ elim (api.esp_ota_get_running_partition s.dev) [
      | none ↦ done esp_fail s
      | some running ↦
          let next = api.esp_ota_get_next_update_partition s.dev in
          begin_update next (record s { update_partition = next })
    ]
  ]

  -- The first segment must hold more than the image's headers.
  unfoldable pub check_header : ℕ → Option Bytes → Call Bool
  unfolding copy_from
  check_header data_read ota_write_data =
      if ltb (prefix_size api) data_read
      then (do
        copy_from ota_write_data (prefix_size api)
        modify λ s. record s { image_header_was_checked = true }
        pure true)
      else pure false

  unfoldable pub flash : ℕ → Option Bytes → Bool → Call EspErr
  unfolding span
  flash data_read ota_write_data false = abort_with esp_fail
  flash data_read ota_write_data true = do
    s ← get
    bytes ← span ota_write_data data_read
    ret ← on_dev (api.esp_ota_write s.update_handle bytes)
    if is_err ret then abort_with ret else pure esp_ok

  -- Behind `esp_encrypted_img_decrypt_data`.
  unfoldable pub decrypted : EspErr → Call EspErr
  decrypted ret = if is_decrypt_error ret then abort_with ret else do
    s ← get
    out ← pointee api.Dev lib
    checked ←
        (if s.image_header_was_checked then pure true else check_header s.enc_arg.data_out_len out)
    flash s.enc_arg.data_out_len out checked

  unfoldable pub write_ota_ws : ℕ → Option Bytes → Call EspErr
  write_ota_ws enc_data_read enc_ota_write_data = do
    modify λ s. record s {
      enc_arg = record (s.enc_arg) { data_in = enc_ota_write_data; data_in_len = enc_data_read };
    }
    s ← get
    ret ← esp_encrypted_img_decrypt_data api.Dev lib s.enc_handle
    decrypted ret

  -- `free(enc_arg.data_out)`, which leaves the pointer as it is.
  unfoldable pub end_ota_ws : Call EspErr
  unfolding free_out
  end_ota_ws = do
    s ← get
    ret ← esp_encrypted_img_decrypt_end api.Dev lib s.enc_handle
    if is_err ret then abort_with ret else do
      s ← get
      ret ← on_dev (api.esp_ota_end s.update_handle)
      if is_err ret then abort_with ret else do
        s ← get
        ret ← on_dev (api.esp_ota_set_boot_partition s.update_partition)
        if is_err ret then abort_with ret else (do free_out; pure esp_ok)

  unfoldable pub check_ota_ws_rollback_enable : Call Bool
  check_ota_ws_rollback_enable s =
      let running = api.esp_ota_get_running_partition s.dev in
      done
        (if rollback_enable
          then is_pending (api.esp_ota_get_state_partition running s.dev)
          else false)
        s

  restart : Option EspErr → Call EspErr
  restart none s = reboot s
  restart (some err) s = done err s

  unfoldable pub rollback_ota_ws : Bool → Call EspErr
  unfolding restart
  rollback_ota_ws rollback =
      if rollback_enable
      then if rollback
        then on_dev api.esp_ota_mark_app_invalid_rollback_and_reboot >>= restart
        else on_dev api.esp_ota_mark_app_valid_cancel_rollback
      else pure esp_fail

  abbrev pub pre_encrypted : Backend
  pre_encrypted = record {
    State = PreEncOta api.Dev lib.Ctx;
    start_ota_ws = start_ota_ws;
    write_ota_ws = write_ota_ws;
    end_ota_ws = end_ota_ws;
    abort_ota_ws = abort_ota_ws;
    check_ota_ws_rollback_enable = check_ota_ws_rollback_enable;
    rollback_ota_ws = rollback_ota_ws;
  }
