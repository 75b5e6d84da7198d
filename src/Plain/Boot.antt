-- ===== src/Plain/Boot.antt =====
-- What the plain flash writer does to the partition that the device boots from.
use ota_ws_update.Base.{
  ℕ, ◌≤◌, ◌≡◌, refl, sym, ◌∙◌, inl, inr, Bool, true, false, Option, none, some, ◌++◌, [], arith,
  Bytes, ltb, length, take, Bool-cases, ◌||◌,
}
use ota_ws_update.Esp.{EspErr, esp_ok, is_err, done}
use ota_ws_update.Device.{OtaApi, OtaLaws, BootLaws, prefix_size}
use ota_ws_update.Plain.{
  EspOta, start_ota_ws, write_ota_ws, end_ota_ws, abort_ota_ws, rollback_ota_ws,
}
use ota_ws_update.Plain.Safe.{write_ota_ws-header}
use ota_ws_update.Plain.Image.{OnTarget, start-OnTarget, sent_on-OnTarget}

module _ (api : OtaApi) (laws : OtaLaws api) (boot_laws : BootLaws api laws)
    (rollback_enable : Bool) where
  -- The partition to boot from.
  abbrev pub boot : EspOta api.Dev → Option ℕ
  boot s = api.esp_ota_get_boot_partition s.dev

  abbrev pub On : ℕ → Bytes → EspOta api.Dev → Type 0
  On = OnTarget api laws rollback_enable

  next_start :
      (next : Option ℕ) (s s1 : EspOta api.Dev) (ret : EspErr)
      → api.esp_ota_get_next_update_partition s.dev ≡ next
      → start_ota_ws api rollback_enable s ≡ done ret s1
      → (boot s1 ≡ boot s) × (ret ≡ esp_ok → (p : ℕ) × On p [] s1)
  unfolding start_ota_ws
  next_start none s s1 ret e run = (ground arith, λ good. absurd (ground arith))
  next_start (some p) s s1 ret e run = (
    ground (arith, boot_laws.begin_keeps_boot p s.dev),
    λ good. (p, start-OnTarget api laws rollback_enable p s s1 e (rw good at run)),
  )

  pub start-boot :
      (s s1 : EspOta api.Dev) (ret : EspErr)
      → start_ota_ws api rollback_enable s ≡ done ret s1
      → (boot s1 ≡ boot s) × (ret ≡ esp_ok → (p : ℕ) × On p [] s1)
  start-boot s s1 ret run =
      next_start (api.esp_ota_get_next_update_partition s.dev) s s1 ret refl run

  pub write-boot :
      (n : ℕ) (buf : Option Bytes) (s s1 : EspOta api.Dev) (ret : EspErr)
      → write_ota_ws api rollback_enable n buf s ≡ done ret s1
      → boot s1 ≡ boot s
  unfolding write_ota_ws
  write-boot n none s s1 ret run =
      ground (arith, boot_laws.write_keeps_boot s.update_handle none s.dev)
  write-boot n (some buf) s s1 ret run =
      ground (arith, boot_laws.write_keeps_boot s.update_handle (some (take n buf)) s.dev)

  pub end-boot :
      (s s1 : EspOta api.Dev) (ret : EspErr)
      → is_err ret ≡ true
      → end_ota_ws api rollback_enable s ≡ done ret s1
      → boot s1 ≡ boot s
  unfolding end_ota_ws
  end-boot s s1 ret bad run =
      let d1 = (api.esp_ota_end s.update_handle s.dev).1 in
      ground (
        arith,
        boot_laws.end_keeps_boot s.update_handle s.dev,
        boot_laws.set_boot_refused s.update_partition d1,
      )

  pub abort-boot :
      (s s1 : EspOta api.Dev) (ret : EspErr)
      → abort_ota_ws api rollback_enable s ≡ done ret s1
      → boot s1 ≡ boot s
  unfolding abort_ota_ws
  abort-boot s s1 ret run = ground (arith, boot_laws.abort_keeps_boot s.update_handle s.dev)

  write-inside :
      (n : ℕ) (bytes : Bytes) (s s1 : EspOta api.Dev) (ret : EspErr)
      → is_err ret ≡ false
      → write_ota_ws api rollback_enable n (some bytes) s ≡ done ret s1
      → n ≤ length bytes
  unfolding write_ota_ws
  write-inside n bytes s s1 ret good run = ground arith

  -- A chunk that is taken.
  pub write-On :
      (p n : ℕ) (image : Bytes) (buf : Option Bytes) (s s1 : EspOta api.Dev)
      → On p image s
      → write_ota_ws api rollback_enable n buf s ≡ done esp_ok s1
      → (bytes : Bytes) × (buf ≡ some bytes) × (n ≤ length bytes) × On p (image ++ take n bytes) s1
  unfolding write_ota_ws
  write-On p n image none s s1 t run =
      absurd (ground (arith, boot_laws.write_null s.update_handle s.dev))
  write-On p n image (some bytes) s s1 t run =
      let inside = write-inside n bytes s s1 esp_ok refl run in
      let whole = write_ota_ws-header api rollback_enable n bytes s inside in
      elim (Bool-cases (s.image_header_was_checked || ltb (prefix_size api) n)) [
        | inl checked ↦ (
          bytes,
          refl,
          inside,
          sent_on-OnTarget api laws rollback_enable p n image bytes s s1 t
              (sym (rw checked at whole) ∙ run),
        )
        | inr short ↦ absurd (ground arith)
      ]

  -- The image of a partition is confirmed, or not given up.
  pub rollback-boot :
      (rollback : Bool) (s s1 : EspOta api.Dev) (ret : EspErr)
      → rollback_ota_ws api rollback_enable rollback s ≡ done ret s1
      → (boot s1 ≡ boot s) × ((p : ℕ) (image : Bytes) → On p image s → On p image s1)
  unfolding rollback_ota_ws
  rollback-boot rollback s s1 ret run = (
    ground (arith, boot_laws.valid_keeps_boot s.dev, boot_laws.invalid_keeps_boot ret s.dev s1.dev),
    λ p image t. record {
      partition = ground (arith, t.partition);
      bound = ground (
        arith,
        t.bound,
        boot_laws.valid_keeps_update s.update_handle p s.dev,
        boot_laws.invalid_keeps_update s.update_handle p ret s.dev s1.dev,
      );
      holds = ground (
        arith,
        t.holds,
        boot_laws.valid_keeps_update s.update_handle p s.dev,
        boot_laws.invalid_keeps_update s.update_handle p ret s.dev s1.dev,
      );
    },
  )
