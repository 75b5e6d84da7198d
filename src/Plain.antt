-- ===== src/Plain.antt =====
-- source/ota_ws_update_esp.c: the flash writer for plain images. CONFIG_BOOTLOADER_APP_ROLLBACK_ENABLE
-- is the parameter `rollback_enable`.
pub mod Safe
pub mod Returns
pub mod Image
pub mod Boot
use ota_ws_update.Base.{
  ℕ, ◌+◌, ◌%◌, Bool, true, false, Option, none, some, ltb, if◌then◌else◌, Bytes,
}
use ota_ws_update.Word.{u32_mod}
use ota_ws_update.Esp.{
  EspErr, esp_ok, esp_fail, is_err, Outcome, done, reboot, null_dereference, M, pure, fault, ◌>>=◌,
  ◌>>◌, modify, get,
}
use ota_ws_update.Memory.{span, copy_from}
use ota_ws_update.Device.{
  OtaApi, Begin, handle, refused, ImgState, pending_verify, other_state, prefix_size,
}
use ota_ws_update.Backend.{Backend}

-- The static variables, and the device.
pub record EspOta (Dev : Type 0) : Type 0 where
  pub update_partition : Option ℕ
  pub image_header_was_checked : Bool
  pub update_handle : ℕ
  pub dev : Dev

abbrev pub initial : {Dev : Type 0} → Dev → EspOta Dev
initial d = record {
  update_partition = none;
  image_header_was_checked = false;
  update_handle = 0;
  dev = d;
}

-- A call of the device.
abbrev pub on_dev : {Dev A : Type 0} → (Dev → A × Dev) → M (EspOta Dev) A
on_dev f s = let (a, d) = f s.dev in done a (record s { dev = d })

abbrev pub is_pending : EspErr × ImgState → Bool
is_pending (esp_ok, pending_verify) = true
is_pending _ = false

module _ (api : OtaApi) (rollback_enable : Bool) where
  abbrev pub Call : Type 0 → Type 0
  Call = M (EspOta api.Dev)

  begun : Begin → Call EspErr
  begun refused = pure esp_fail
  begun (handle h) = do
    modify λ s. record s { update_handle = h; image_header_was_checked = false }
    pure esp_ok

  -- `update_partition` is read for the log before `esp_ota_begin` is given it.
  begin_update : Option ℕ → Call EspErr
  unfolding begun
  begin_update none = fault null_dereference
  begin_update (some p) = on_dev (api.esp_ota_begin p) >>= begun

  unfoldable pub start_ota_ws : Call EspErr
  unfolding begin_update
  start_ota_ws s = elim (api.esp_ota_get_boot_partition s.dev) [
    | none ↦ done esp_fail s
    | some configured ↦ elim (api.esp_ota_get_running_partition s.dev) [
      | none ↦ done esp_fail s
      | some running ↦
          let next = api.esp_ota_get_next_update_partition s.dev in
          begin_update next (record s { update_partition = next })
    ]
  ]

  -- The first segment must hold more than the image's headers; `data_read` is compared as `size_t`.
  check_header : ℕ → Option Bytes → Call Bool
  unfolding copy_from
  check_header data_read ota_write_data =
      if ltb (prefix_size api) data_read
      then (do
        copy_from ota_write_data (prefix_size api)
        modify λ s. record s { image_header_was_checked = true }
        pure true)
      else pure false

  flash : ℕ → Option Bytes → Bool → Call EspErr
  unfolding span
  flash data_read ota_write_data false = pure esp_fail
  flash data_read ota_write_data true = do
    s ← get
    bytes ← span ota_write_data data_read
    err ← on_dev (api.esp_ota_write s.update_handle bytes)
    pure (if is_err err then esp_fail else esp_ok)

  unfoldable pub write_ota_ws : ℕ → Option Bytes → Call EspErr
  unfolding check_header flash
  write_ota_ws data_read ota_write_data = do
    s ← get
    checked ←
        (if s.image_header_was_checked then pure true else check_header data_read ota_write_data)
    flash data_read ota_write_data checked

  unfoldable pub end_ota_ws : Call EspErr
  end_ota_ws = do
    s ← get
    err ← on_dev (api.esp_ota_end s.update_handle)
    if is_err err then pure esp_fail else do
      err ← on_dev (api.esp_ota_set_boot_partition s.update_partition)
      pure (if is_err err then esp_fail else esp_ok)

  unfoldable pub abort_ota_ws : Call EspErr
  abort_ota_ws = do s ← get; on_dev (api.esp_ota_abort s.update_handle)

  unfoldable pub check_ota_ws_rollback_enable : Call Bool
  check_ota_ws_rollback_enable s =
      let running = api.esp_ota_get_running_partition s.dev in
      done
        (if rollback_enable
          then is_pending (api.esp_ota_get_state_partition running s.dev)
          else false)
        s

  restart : Option EspErr → Call EspErr
  restart none s = reboot s
  restart (some err) s = done err s

  unfoldable pub rollback_ota_ws : Bool → Call EspErr
  unfolding restart
  rollback_ota_ws rollback =
      if rollback_enable
      then if rollback
        then on_dev api.esp_ota_mark_app_invalid_rollback_and_reboot >>= restart
        else on_dev api.esp_ota_mark_app_valid_cancel_rollback
      else pure esp_fail

  -- The flash writer that the handler is linked with.
  abbrev pub plain : Backend
  plain = record {
    State = EspOta api.Dev;
    start_ota_ws = start_ota_ws;
    write_ota_ws = write_ota_ws;
    end_ota_ws = end_ota_ws;
    abort_ota_ws = abort_ota_ws;
    check_ota_ws_rollback_enable = check_ota_ws_rollback_enable;
    rollback_ota_ws = rollback_ota_ws;
  }
