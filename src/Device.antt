-- ===== src/Device.antt =====
-- ESP-IDF's update functions (esp_ota_ops.h), which the flash writers call: a parameter of the
-- model. A partition pointer is `none` for NULL; the state `Dev` is all that the device holds.
use ota_ws_update.Base.{ℕ, ◌≡◌, ◌+◌, ◌++◌, true, [], Option, none, some, Bytes}
use ota_ws_update.Esp.{EspErr, esp_ok, is_err}

-- `esp_ota_begin` gives a handle, or refuses with a code that no caller looks at.
pub data Begin : Type 0 where
  handle : ℕ → Begin
  refused : Begin

-- `esp_ota_img_states_t`: the one state that the program asks for, and all others.
pub data ImgState : Type 0 where
  pending_verify other_state : ImgState

pub record OtaApi : Type 1 where
  pub Dev : Type 0
  pub esp_ota_get_boot_partition : Dev → Option ℕ
  pub esp_ota_get_running_partition : Dev → Option ℕ
  pub esp_ota_get_next_update_partition : Dev → Option ℕ
  pub esp_ota_begin : ℕ → Dev → Begin × Dev
  pub esp_ota_write : ℕ → Option Bytes → Dev → EspErr × Dev
  pub esp_ota_end : ℕ → Dev → EspErr × Dev
  pub esp_ota_set_boot_partition : Option ℕ → Dev → EspErr × Dev
  pub esp_ota_abort : ℕ → Dev → EspErr × Dev
  pub esp_ota_get_state_partition : Option ℕ → Dev → EspErr × ImgState
  pub esp_ota_mark_app_valid_cancel_rollback : Dev → EspErr × Dev
  -- `none`: the chip restarts and the call does not return
  pub esp_ota_mark_app_invalid_rollback_and_reboot : Dev → Option EspErr × Dev
  pub sizeof_esp_image_header_t : ℕ
  pub sizeof_esp_image_segment_header_t : ℕ
  pub sizeof_esp_app_desc_t : ℕ

-- The bytes in front of the image that the first chunk has to exceed.
abbrev pub prefix_size : OtaApi → ℕ
prefix_size api =
    api.sizeof_esp_image_header_t + api.sizeof_esp_image_segment_header_t
    + api.sizeof_esp_app_desc_t

-- `esp_ota_write` refuses NULL.
abbrev pub RefusesNull : OtaApi → Type 0
RefusesNull api = (h : ℕ) (d : api.Dev) → is_err (api.esp_ota_write h none d).0 ≡ true

-- What ESP-IDF documents of a successful update: a handle is bound to a partition, whose contents
-- are erased by `esp_ota_begin` and grow by what `esp_ota_write` is given, in order.
pub record OtaLaws (api : OtaApi) : Type 0 where
  pub target : ℕ → api.Dev → Option ℕ
  pub contents : ℕ → api.Dev → Bytes
  pub begin_erases :
      (p h : ℕ) (d d' : api.Dev)
      → api.esp_ota_begin p d ≡ (handle h, d')
      → (target h d' ≡ some p) × (contents p d' ≡ [])
  pub write_appends :
      (p h : ℕ) (bytes : Bytes) (d d' : api.Dev)
      → target h d ≡ some p
      → api.esp_ota_write h (some bytes) d ≡ (esp_ok, d')
      → (target h d' ≡ some p) × (contents p d' ≡ contents p d ++ bytes)
  pub end_keeps :
      (p h : ℕ) (d d' : api.Dev)
      → target h d ≡ some p
      → api.esp_ota_end h d ≡ (esp_ok, d')
      → contents p d' ≡ contents p d
  pub set_boot_selects :
      (p : ℕ) (d d' : api.Dev)
      → api.esp_ota_set_boot_partition (some p) d ≡ (esp_ok, d')
      → (api.esp_ota_get_boot_partition d' ≡ some p) × (contents p d' ≡ contents p d)

-- What ESP-IDF documents of the partition to boot from: `esp_ota_set_boot_partition` changes it, and only
-- if it succeeds, and so does the rollback to the image of before, with which the chip restarts. A running
-- image that is confirmed, or whose rollback returns an error, leaves the update in progress alone as
-- well, and NULL is no data.
pub record BootLaws (api : OtaApi) (laws : OtaLaws api) : Type 0 where
  pub begin_keeps_boot :
      (p : ℕ) (d : api.Dev)
      → api.esp_ota_get_boot_partition (api.esp_ota_begin p d).1 ≡ api.esp_ota_get_boot_partition d
  pub write_keeps_boot :
      (h : ℕ) (bytes : Option Bytes) (d : api.Dev)
      → api.esp_ota_get_boot_partition (api.esp_ota_write h bytes d).1
        ≡ api.esp_ota_get_boot_partition d
  pub end_keeps_boot :
      (h : ℕ) (d : api.Dev)
      → api.esp_ota_get_boot_partition (api.esp_ota_end h d).1 ≡ api.esp_ota_get_boot_partition d
  pub abort_keeps_boot :
      (h : ℕ) (d : api.Dev)
      → api.esp_ota_get_boot_partition (api.esp_ota_abort h d).1 ≡ api.esp_ota_get_boot_partition d
  pub set_boot_refused :
      (p : Option ℕ) (d : api.Dev)
      → is_err (api.esp_ota_set_boot_partition p d).0 ≡ true
      → api.esp_ota_get_boot_partition (api.esp_ota_set_boot_partition p d).1
        ≡ api.esp_ota_get_boot_partition d
  pub write_null : RefusesNull api
  pub valid_keeps_boot :
      (d : api.Dev)
      → api.esp_ota_get_boot_partition (api.esp_ota_mark_app_valid_cancel_rollback d).1
        ≡ api.esp_ota_get_boot_partition d
  pub valid_keeps_update :
      (h p : ℕ) (d : api.Dev)
      → let d' = (api.esp_ota_mark_app_valid_cancel_rollback d).1 in
        (laws.target h d' ≡ laws.target h d) × (laws.contents p d' ≡ laws.contents p d)
  pub invalid_keeps_boot :
      (err : EspErr) (d d' : api.Dev)
      → api.esp_ota_mark_app_invalid_rollback_and_reboot d ≡ (some err, d')
      → api.esp_ota_get_boot_partition d' ≡ api.esp_ota_get_boot_partition d
  pub invalid_keeps_update :
      (h p : ℕ) (err : EspErr) (d d' : api.Dev)
      → api.esp_ota_mark_app_invalid_rollback_and_reboot d ≡ (some err, d')
      → (laws.target h d' ≡ laws.target h d) × (laws.contents p d' ≡ laws.contents p d)
