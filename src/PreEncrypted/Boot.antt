-- ===== src/PreEncrypted/Boot.antt =====
-- What the flash writer for encrypted images does to the partition that the device boots from.
use ota_ws_update.Base.{
  ℕ, ◌≡◌, refl, ◌∙◌, ◌⊎◌, inl, inr, Bool, true, false, Option, none, some, arith, Bytes, Bool-cases,
  ltb, length, take, if◌then◌else◌,
}
use ota_ws_update.Esp.{EspErr, esp_ok, esp_fail, is_err, done, pure, bind, Outcome}
use ota_ws_update.Backend.{Ends, >>=-Ends}
use ota_ws_update.Device.{OtaApi, OtaLaws, BootLaws, Begin, handle, refused}
use ota_ws_update.EncryptedImg.{EncryptedImg}
use ota_ws_update.PreEncrypted.{PreEncOta}
use ota_ws_update.PreEncrypted.Library.{
  esp_encrypted_img_decrypt_data, pointee, set_out, set_out_len, esp_encrypted_img_decrypt_start,
}
use ota_ws_update.PreEncrypted.Writer.{
  abort_ota_ws, abort_with, begun, begin_update, start_ota_ws, check_header, flash, decrypted,
  write_ota_ws, rollback_ota_ws, is_decrypt_error,
}

module _ (api : OtaApi) (laws : OtaLaws api) (boot_laws : BootLaws api laws) (lib : EncryptedImg)
    (rollback_enable : Bool) (rsa_private_pem : Bytes) where
  abbrev S : Type 0
  S = PreEncOta api.Dev lib.Ctx

  -- The partition to boot from.
  abbrev pub boot : S → Option ℕ
  boot s = api.esp_ota_get_boot_partition s.dev

  -- A call that returns leaves it as it is.
  abbrev pub Keeps : {A : Type 0} → Option ℕ → Outcome S A → Type 0
  Keeps q o = Ends (Unit {0}) (λ _ s1. boot s1 ≡ q) o

  pub abort-Keeps :
      (s : S) → Keeps (boot s) (abort_ota_ws api lib rollback_enable rsa_private_pem s)
  unfolding abort_ota_ws
  abort-Keeps s = ground (arith, boot_laws.abort_keeps_boot s.update_handle s.dev)

  abort_with-Keeps :
      (ret : EspErr) (q : Option ℕ) (s : S)
      → boot s ≡ q
      → Keeps q (abort_with api lib rollback_enable rsa_private_pem ret s)
  unfolding abort_with
  abort_with-Keeps ret q s same =
      >>=-Ends (Unit {0}) (λ _ s1. boot s1 ≡ boot s) (λ _ s1. boot s1 ≡ q)
        (abort_ota_ws api lib rollback_enable rsa_private_pem s) (λ _. pure ret) (abort-Keeps s)
        (λ r s1 h. h ∙ same)

  decrypt_data-Keeps :
      (p : ℕ) (s : S) → Keeps (boot s) (esp_encrypted_img_decrypt_data api.Dev lib p s)
  unfolding esp_encrypted_img_decrypt_data set_out set_out_len
  decrypt_data-Keeps p s = ground arith

  pointee-Keeps : (s : S) → Ends (Unit {0}) (λ _ s1. s1 ≡ s) (pointee api.Dev lib s)
  unfolding pointee
  pointee-Keeps s = ground arith

  check_header-Keeps :
      (n : ℕ) (out : Option Bytes) (s : S)
      → Keeps (boot s) (check_header api lib rollback_enable rsa_private_pem n out s)
  unfolding check_header
  check_header-Keeps n none s = ground arith
  check_header-Keeps n (some b) s = ground arith

  handle-Keeps :
      (made : Option lib.Ctx) (h : ℕ) (q : Option ℕ) (s : S)
      → lib.decrypt_start rsa_private_pem s.heap.last ≡ made
      → boot s ≡ q
      → Keeps q (begun api lib rollback_enable rsa_private_pem (handle h) s)
  unfolding begun esp_encrypted_img_decrypt_start
  handle-Keeps none h q s e same =
      let failed : S = record s {
        update_handle = h;
        image_header_was_checked = false;
        enc_cfg = rsa_private_pem;
        enc_handle = 0;
      } in
      ground (arith, e, abort_with-Keeps esp_fail q failed same)
  handle-Keeps (some c) h q s e same = ground (arith, e, same)

  begun-Keeps :
      (b : Begin) (q : Option ℕ) (s : S)
      → boot s ≡ q
      → Keeps q (begun api lib rollback_enable rsa_private_pem b s)
  unfolding begun
  begun-Keeps refused q s same = same
  begun-Keeps (handle h) q s same =
      handle-Keeps (lib.decrypt_start rsa_private_pem s.heap.last) h q s refl same

  begin_update-Keeps :
      (next : Option ℕ) (q : Option ℕ) (s : S)
      → boot s ≡ q
      → Keeps q (begin_update api lib rollback_enable rsa_private_pem next s)
  unfolding begin_update
  begin_update-Keeps none q s same = tt
  begin_update-Keeps (some p) q s same =
      let r = api.esp_ota_begin p s.dev in
      begun-Keeps r.0 q (record s { dev = r.1 }) (boot_laws.begin_keeps_boot p s.dev ∙ same)

  pub start-Keeps :
      (s : S) → Keeps (boot s) (start_ota_ws api lib rollback_enable rsa_private_pem s)
  unfolding start_ota_ws
  start-Keeps s =
      let next = api.esp_ota_get_next_update_partition s.dev in
      let later = begin_update-Keeps next (boot s) (record s { update_partition = next }) refl in
      ground (arith, later)

  sent-Keeps :
      (bytes : Option Bytes) (q : Option ℕ) (s : S)
      → boot s ≡ q
      → let r = api.esp_ota_write s.update_handle bytes s.dev in
        Keeps q (
          (if is_err r.0
              then abort_with api lib rollback_enable rsa_private_pem r.0
              else pure esp_ok)
            (record s { dev = r.1 }))
  sent-Keeps bytes q s same =
      let r = api.esp_ota_write s.update_handle bytes s.dev in
      let same' = boot_laws.write_keeps_boot s.update_handle bytes s.dev ∙ same in
      elim (Bool-cases (is_err r.0)) [
        | inl bad ↦ rw bad (abort_with-Keeps r.0 q (record s { dev = r.1 }) same')
        | inr good ↦ rw good same'
      ]

  flash-Keeps :
      (n : ℕ) (out : Option Bytes) (checked : Bool) (q : Option ℕ) (s : S)
      → boot s ≡ q
      → Keeps q (flash api lib rollback_enable rsa_private_pem n out checked s)
  unfolding flash
  flash-Keeps n out false q s same = abort_with-Keeps esp_fail q s same
  flash-Keeps n none true q s same = sent-Keeps none q s same
  flash-Keeps n (some b) true q s same = elim (Bool-cases (ltb (length b) n)) [
    | inl outside ↦ rw outside tt
    | inr inside ↦ rw inside (sent-Keeps (some (take n b)) q s same)
  ]

  checked-Keeps :
      (n : ℕ) (out : Option Bytes) (before : Bool) (q : Option ℕ) (s : S)
      → boot s ≡ q
      → Keeps q (
          bind
            ((if before
                then pure true
                else check_header api lib rollback_enable rsa_private_pem n out)
              s)
            (flash api lib rollback_enable rsa_private_pem n out))
  checked-Keeps n out true q s same = flash-Keeps n out true q s same
  checked-Keeps n out false q s same =
      >>=-Ends (Unit {0}) (λ _ s1. boot s1 ≡ boot s) (λ _ s1. boot s1 ≡ q)
        (check_header api lib rollback_enable rsa_private_pem n out s)
        (flash api lib rollback_enable rsa_private_pem n out) (check_header-Keeps n out s)
        (λ checked s1 h. flash-Keeps n out checked q s1 (h ∙ same))

  decrypted-Keeps :
      (ret : EspErr) (q : Option ℕ) (s : S)
      → boot s ≡ q
      → Keeps q (decrypted api lib rollback_enable rsa_private_pem ret s)
  unfolding decrypted
  decrypted-Keeps ret q s same = elim (Bool-cases (is_decrypt_error ret)) [
    | inl bad ↦ rw bad (abort_with-Keeps ret q s same)
    | inr good ↦ rw good (
        >>=-Ends (Unit {0}) (λ _ s1. s1 ≡ s) (λ _ s1. boot s1 ≡ q) (pointee api.Dev lib s)
          (λ out s1.
            bind
              ((if s.image_header_was_checked
                  then pure true
                  else check_header api lib rollback_enable rsa_private_pem s.enc_arg.data_out_len
                      out)
                s1)
              (flash api lib rollback_enable rsa_private_pem s.enc_arg.data_out_len out))
          (pointee-Keeps s)
          (λ out s1 h.
            checked-Keeps s.enc_arg.data_out_len out s.image_header_was_checked q s1 (rw h same)))
  ]

  pub write-Keeps :
      (n : ℕ) (buf : Option Bytes) (s : S)
      → Keeps (boot s) (write_ota_ws api lib rollback_enable rsa_private_pem n buf s)
  unfolding write_ota_ws
  write-Keeps n buf s =
      let s1 : S = record s { enc_arg = record (s.enc_arg) { data_in = buf; data_in_len = n } } in
      >>=-Ends (Unit {0}) (λ _ s2. boot s2 ≡ boot s) (λ _ s2. boot s2 ≡ boot s)
        (esp_encrypted_img_decrypt_data api.Dev lib s.enc_handle s1)
        (decrypted api lib rollback_enable rsa_private_pem) (decrypt_data-Keeps s.enc_handle s1)
        (λ ret s2 h. decrypted-Keeps ret (boot s) s2 h)

  -- A rollback that returns keeps it, and an update in progress as well.
  pub rollback-dev :
      (rollback : Bool) (s s1 : S) (ret : EspErr)
      → rollback_ota_ws api lib rollback_enable rsa_private_pem rollback s ≡ done ret s1
      → (s1 ≡ record s { dev = s1.dev })
        × ((s1.dev ≡ s.dev)
            ⊎ (s1.dev ≡ (api.esp_ota_mark_app_valid_cancel_rollback s.dev).1)
            ⊎ (api.esp_ota_mark_app_invalid_rollback_and_reboot s.dev ≡ (some ret, s1.dev)))
  unfolding rollback_ota_ws
  rollback-dev rollback s s1 ret run = ground arith

  pub rollback-boot :
      (rollback : Bool) (s s1 : S) (ret : EspErr)
      → rollback_ota_ws api lib rollback_enable rsa_private_pem rollback s ≡ done ret s1
      → boot s1 ≡ boot s
  rollback-boot rollback s s1 ret run = elim (rollback-dev rollback s s1 ret run).1 [
    | inl none_of_it ↦ rw none_of_it refl
    | inr (inl valid) ↦ rw valid (boot_laws.valid_keeps_boot s.dev)
    | inr (inr invalid) ↦ boot_laws.invalid_keeps_boot ret s.dev s1.dev invalid
  ]
