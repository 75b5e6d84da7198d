-- ===== src/PreEncrypted/Write.antt =====
-- `write_ota_ws`: what the static variables point to stays allocated, or is all released and an error
-- is reported.
use ota_ws_update.Base.{
  ℕ, ◌≤◌, ◌≡◌, refl, ◌⊎◌, inl, inr, Bool, true, false, Option, none, some, arith, Bytes,
  if◌then◌else◌, length, ltb, Bool-cases, take,
}
use ota_ws_update.Esp.{EspErr, esp_ok, esp_fail, is_err, bind, pure, modify, ◌>>◌}
use ota_ws_update.Memory.{copy_from}
use ota_ws_update.Device.{OtaApi, prefix_size}
use ota_ws_update.EncryptedImg.{EncryptedImg}
use ota_ws_update.Backend.{Ends, >>=-Ends}
use ota_ws_update.PreEncrypted.{PreEncOta}
use ota_ws_update.PreEncrypted.Library.{esp_encrypted_img_decrypt_data, pointee}
use ota_ws_update.PreEncrypted.Abort.{IsOwned, IsReleased, abort-IsOwned}
use ota_ws_update.PreEncrypted.Output.{DecryptLaws, IsReadable, IsSound, decrypt_data-Ok}
use ota_ws_update.PreEncrypted.Writer.{
  is_decrypt_error, abort_with, check_header, flash, decrypted, write_ota_ws,
}

-- The output that is read for the header: no byte at NULL, or a buffer that is long enough.
abbrev Fits : Option Bytes → ℕ → Type 0
Fits none n = n ≡ 0
Fits (some b) n = n ≤ length b

-- The output that the device is given, which checks for NULL itself.
abbrev InBuffer : Option Bytes → ℕ → Type 0
InBuffer none n = Unit
InBuffer (some b) n = n ≤ length b

Fits-InBuffer : (out : Option Bytes) (n : ℕ) → Fits out n → InBuffer out n
Fits-InBuffer none n h = tt
Fits-InBuffer (some b) n h = h

le-ltb : (a b : ℕ) → b ≤ a → ltb a b ≡ false
le-ltb a b h = ground arith

decrypt_error-is_err : (ret : EspErr) → is_decrypt_error ret ≡ true → is_err ret ≡ true
decrypt_error-is_err ret h = ground arith

module _ (api : OtaApi) (lib : EncryptedImg) (rollback_enable : Bool)
    (rsa_private_pem : Bytes) where
  abbrev S : Type 0
  S = PreEncOta api.Dev lib.Ctx

  -- The state in which the header is checked, with what is needed of the output.
  record IsChecked (s : S) : Type 0 where
    pub owned : IsOwned s
    pub readable : IsReadable s
    pub checked : s.image_header_was_checked ≡ true

  IsChecked-IsSound : (s : S) → IsChecked s → IsSound s
  IsChecked-IsSound s c = record {
    owned = c.owned;
    readable = c.readable;
    fresh = λ unchecked. absurd (ground (arith, c.checked));
  }

  -- The check fails and the static variables stay as they are, or it succeeds.
  abbrev Checked : Bool → S → Type 0
  Checked false s = IsOwned s
  Checked true s = IsChecked s

  check_done-IsReadable :
      (s : S) → IsReadable s → IsReadable (record s { image_header_was_checked = true })
  check_done-IsReadable s a = elim a.output [
    | inl (null, _) ↦ record { output = inl (null, λ e. cc) }
    | inr there ↦ record { output = inr there }
  ]

  header_copied-Ends :
      (n : ℕ) (out : Option Bytes) (s : S)
      → IsOwned s
      → IsReadable (record s { image_header_was_checked = true })
      → Fits out n
      → ltb (prefix_size api) n ≡ true
      → Ends ⊥ Checked (
          (do
            copy_from out (prefix_size api)
            modify λ s. record s { image_header_was_checked = true }
            pure true)
            s)
  unfolding copy_from
  header_copied-Ends n none s o a h longer = absurd (ground arith)
  header_copied-Ends n (some b) s o a h longer =
      rw (le-ltb (length b) (prefix_size api) (ground arith)) (record {
        owned = record { handle_live = o.handle_live; out_live = o.out_live };
        readable = a;
        checked = refl;
      })

  check_header-Ends :
      (n : ℕ) (out : Option Bytes) (s : S)
      → IsOwned s
      → IsReadable (record s { image_header_was_checked = true })
      → Fits out n
      → Ends ⊥ Checked (check_header api lib rollback_enable rsa_private_pem n out s)
  unfolding check_header
  check_header-Ends n out s o a h = elim (Bool-cases (ltb (prefix_size api) n)) [
    | inl longer ↦ rw longer (header_copied-Ends n out s o a h longer)
    | inr short ↦ rw short o
  ]

  -- The update goes on with everything allocated, or an error is returned and nothing is held.
  abbrev pub Written : EspErr → S → Type 0
  Written ret s = ((ret ≡ esp_ok) × IsSound s) ⊎ ((is_err ret ≡ true) × IsReleased s)

  pub abort_with-Ends :
      (ret : EspErr) (s : S)
      → is_err ret ≡ true
      → IsOwned s
      → Ends ⊥ Written (abort_with api lib rollback_enable rsa_private_pem ret s)
  unfolding abort_with
  abort_with-Ends ret s e o =
      rw (abort-IsOwned api lib rollback_enable rsa_private_pem s o)
        (inr (e, record { no_handle = refl; no_update = refl; no_arg = refl }))

  pub with_dev-IsOwned : (d : api.Dev) (s : S) → IsOwned s → IsOwned (record s { dev = d })
  with_dev-IsOwned d s o = record { handle_live = o.handle_live; out_live = o.out_live }

  pub with_dev-IsSound : (d : api.Dev) (s : S) → IsSound s → IsSound (record s { dev = d })
  with_dev-IsSound d s a = record {
    owned = with_dev-IsOwned d s a.owned;
    readable = record { output = a.readable.output };
    fresh = a.fresh;
  }

  sent-Ends :
      (bytes : Option Bytes) (s : S)
      → IsChecked s
      → let r = api.esp_ota_write s.update_handle bytes s.dev in
        Ends ⊥ Written (
          (if is_err r.0
              then abort_with api lib rollback_enable rsa_private_pem r.0
              else pure esp_ok)
            (record s { dev = r.1 }))
  sent-Ends bytes s c =
      let r = api.esp_ota_write s.update_handle bytes s.dev in
      let s1 = record s { dev = r.1 } in
      elim (Bool-cases (is_err r.0)) [
        | inl failed ↦ rw failed (abort_with-Ends r.0 s1 failed (with_dev-IsOwned r.1 s c.owned))
        | inr good ↦ rw good (inl (refl, with_dev-IsSound r.1 s (IsChecked-IsSound s c)))
      ]

  flash-Ends :
      (n : ℕ) (out : Option Bytes) (checked : Bool) (s : S)
      → Checked checked s
      → InBuffer out n
      → Ends ⊥ Written (flash api lib rollback_enable rsa_private_pem n out checked s)
  unfolding flash
  flash-Ends n out false s o h = abort_with-Ends esp_fail s refl o
  flash-Ends n none true s c h = sent-Ends none s c
  flash-Ends n (some b) true s c h = rw (le-ltb (length b) n h) (sent-Ends (some (take n b)) s c)

  -- The header check, and what follows it.
  checked-Ends :
      (n : ℕ) (out : Option Bytes) (s : S)
      → IsOwned s
      → IsReadable s
      → InBuffer out n
      → (s.image_header_was_checked ≡ false → Fits out n)
      → Ends ⊥ Written (
          bind
            ((if s.image_header_was_checked
                then pure true
                else check_header api lib rollback_enable rsa_private_pem n out)
              s)
            (λ checked. flash api lib rollback_enable rsa_private_pem n out checked))
  checked-Ends n out s o a inside fits = elim (Bool-cases s.image_header_was_checked) [
    | inl before ↦
        simp before
          (flash-Ends n out true s (record { owned = o; readable = a; checked = before }) inside)
    | inr first ↦ simp first (
        >>=-Ends ⊥ Checked Written (check_header api lib rollback_enable rsa_private_pem n out s)
          (λ checked. flash api lib rollback_enable rsa_private_pem n out checked)
          (check_header-Ends n out s o (check_done-IsReadable s a) (fits first))
          (λ checked s' c. flash-Ends n out checked s' c inside))
  ]

  fed-IsSound :
      (n : ℕ) (buf : Option Bytes) (s : S)
      → IsSound s
      → IsSound (record s { enc_arg = record (s.enc_arg) { data_in = buf; data_in_len = n } })
  fed-IsSound n buf s a = record {
    owned = record { handle_live = a.owned.handle_live; out_live = a.owned.out_live };
    readable = record { output = a.readable.output };
    fresh = a.fresh;
  }

  decrypted-Ends :
      (ret : EspErr) (s : S)
      → IsOwned s
      → (is_decrypt_error ret ≡ false → IsReadable s)
      → Ends ⊥ Written (decrypted api lib rollback_enable rsa_private_pem ret s)
  unfolding decrypted pointee
  decrypted-Ends ret s o readable = elim (Bool-cases (is_decrypt_error ret)) [
    | inl failed ↦ rw failed (abort_with-Ends ret s (decrypt_error-is_err ret failed) o)
    | inr good ↦ elim (readable good).output [
      | inl (null, no_byte) ↦
          simp (good, null)
            (checked-Ends s.enc_arg.data_out_len none s o (readable good) tt no_byte)
      | inr (b, address, live, within) ↦
          simp (good, address, live)
            (checked-Ends s.enc_arg.data_out_len (some b) s o (readable good) within
              (λ unchecked. within))
    ]
  ]

  -- A chunk never makes the flash writer run into undefined behaviour, as long as its static pointers
  -- are NULL or point to memory that is allocated, the output buffer holds what `data_out_len` says, and
  -- no output is announced while the header of the image is not checked. Afterwards it has either taken
  -- the chunk, and all this is so again; or it returns an error, and every pointer is NULL and every
  -- handle zero.
  pub write_ota_ws-Ends :
      (laws : DecryptLaws lib) (n : ℕ) (buf : Option Bytes) (s : S)
      → IsSound s
      → Ends ⊥ Written (write_ota_ws api lib rollback_enable rsa_private_pem n buf s)
  unfolding write_ota_ws
  write_ota_ws-Ends laws n buf s o =
      let s1 = record s { enc_arg = record (s.enc_arg) { data_in = buf; data_in_len = n } } in
      >>=-Ends ⊥ (λ ret s'. IsOwned s' × (is_decrypt_error ret ≡ false → IsReadable s')) Written
        (esp_encrypted_img_decrypt_data api.Dev lib s1.enc_handle s1)
        (decrypted api lib rollback_enable rsa_private_pem)
        (decrypt_data-Ok api.Dev lib laws s1 buf (fed-IsSound n buf s o) refl)
        (λ ret s' h. decrypted-Ends ret s' h.0 h.1)
