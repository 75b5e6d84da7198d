-- ===== src/Plain/Image.antt =====
-- The image that an update leaves on the device.
use ota_ws_update.Base.{
  ℕ, ◌≤◌, ◌≡◌, sym, ◌∙◌, Bool, some, List, [], ◌∷◌, ◌++◌, arith, Bytes, ltb, ◌||◌, if◌then◌else◌,
  length, length-append, take, take-append_length, append_assoc, append-nil, Bool-cases, inl, inr,
}
use mathlib.Core.Path.{subst}
use ota_ws_update.Esp.{esp_ok, is_err, done, pure, bind-eq-done, passed}
use ota_ws_update.Device.{OtaApi, OtaLaws, prefix_size}
use ota_ws_update.Http.Upload.{upload}
use ota_ws_update.Plain.{EspOta, start_ota_ws, write_ota_ws, end_ota_ws, plain}
use ota_ws_update.Plain.Safe.{write_ota_ws-header, sent_on}

abbrev pub concat : List Bytes → Bytes
concat [] = []
concat (c ∷ cs) = c ++ concat cs

module _ (api : OtaApi) (laws : OtaLaws api) (rollback_enable : Bool) where
  -- The handle is bound to partition p, which holds `image` so far.
  pub record OnTarget (p : ℕ) (image : Bytes) (s : EspOta api.Dev) : Type 0 where
    pub partition : s.update_partition ≡ some p
    pub bound : laws.target s.update_handle s.dev ≡ some p
    pub holds : laws.contents p s.dev ≡ image

  pub start-OnTarget :
      (p : ℕ) (s s' : EspOta api.Dev)
      → api.esp_ota_get_next_update_partition s.dev ≡ some p
      → start_ota_ws api rollback_enable s ≡ done esp_ok s'
      → OnTarget p [] s'
  unfolding start_ota_ws
  start-OnTarget p s s' next run = ground (arith, laws.begin_erases p s'.update_handle s.dev s'.dev)

  pub sent_on-OnTarget :
      (p n : ℕ) (image buf : Bytes) (s s' : EspOta api.Dev)
      → OnTarget p image s
      → sent_on api rollback_enable n buf s ≡ done esp_ok s'
      → OnTarget p (image ++ take n buf) s'
  sent_on-OnTarget p n image buf s s' t run =
      ground (arith, laws.write_appends p s.update_handle (take n buf) s.dev s'.dev)

  write-OnTarget :
      (p : ℕ) (image c : Bytes) (s s' : EspOta api.Dev)
      → OnTarget p image s
      → write_ota_ws api rollback_enable (length c) (some (c ++ (0 ∷ []))) s ≡ done esp_ok s'
      → OnTarget p (image ++ c) s'
  write-OnTarget p image c s s' t run =
      let buf = c ++ (0 ∷ []) in
      let enough : length c ≤ length buf = omega (arith, length-append {0} {A = ℕ} c (0 ∷ [])) in
      let whole = write_ota_ws-header api rollback_enable (length c) buf s enough in
      elim (Bool-cases (s.image_header_was_checked || ltb (prefix_size api) (length c))) [
        | inl checked ↦
            subst (λ bytes. OnTarget p (image ++ bytes) s') (take-append_length c (0 ∷ []))
              (sent_on-OnTarget p (length c) image buf s s' t (sym (rw checked at whole) ∙ run))
        | inr short ↦ ground arith
      ]

  pub end_lem :
      (p : ℕ) (image : Bytes) (s s' : EspOta api.Dev)
      → OnTarget p image s
      → end_ota_ws api rollback_enable s ≡ done esp_ok s'
      → (api.esp_ota_get_boot_partition s'.dev ≡ some p) × (laws.contents p s'.dev ≡ image)
  unfolding end_ota_ws
  end_lem p image s s' t run =
      let d1 = (api.esp_ota_end s.update_handle s.dev).1 in
      ground (arith, laws.end_keeps p s.update_handle s.dev d1, laws.set_boot_selects p d1 s'.dev)

  upload-image :
      (p : ℕ) (image c : Bytes) (cs : List Bytes) (s s' : EspOta api.Dev)
      → OnTarget p image s
      → upload (plain api rollback_enable) c cs s ≡ done esp_ok s'
      → (api.esp_ota_get_boot_partition s'.dev ≡ some p)
        × (laws.contents p s'.dev ≡ image ++ concat (c ∷ cs))
  unfolding upload
  upload-image p image c [] s s' t run =
      let (ret, s1, wrote, rest) =
        bind-eq-done (write_ota_ws api rollback_enable (length c) (some (c ++ (0 ∷ []))) s)
          (λ ret. if is_err ret then pure ret else end_ota_ws api rollback_enable) run in
      let (good, ends) = passed ret s1 (end_ota_ws api rollback_enable) rest in
      let t1 = write-OnTarget p image c s s1 t (rw good at wrote) in
      rw append-nil (end_lem p (image ++ c) s1 s' t1 ends)
  upload-image p image c (d ∷ ds) s s' t run =
      let (ret, s1, wrote, rest) =
        bind-eq-done (write_ota_ws api rollback_enable (length c) (some (c ++ (0 ∷ []))) s)
          (λ ret. if is_err ret then pure ret else upload (plain api rollback_enable) d ds) run in
      let (good, others) = passed ret s1 (upload (plain api rollback_enable) d ds) rest in
      let t1 = write-OnTarget p image c s s1 t (rw good at wrote) in
      rw (← append_assoc image c (concat (d ∷ ds)))
        (upload-image p (image ++ c) d ds s1 s' t1 others)

  -- Where ESP-IDF does what it documents, an update whose calls succeed leaves the device booting
  -- from the partition for the next update, and this holds the chunks, in order, and nothing else.
  pub update-image :
      (p : ℕ) (c : Bytes) (cs : List Bytes) (s s1 s2 : EspOta api.Dev)
      → api.esp_ota_get_next_update_partition s.dev ≡ some p
      → start_ota_ws api rollback_enable s ≡ done esp_ok s1
      → upload (plain api rollback_enable) c cs s1 ≡ done esp_ok s2
      → (api.esp_ota_get_boot_partition s2.dev ≡ some p)
        × (laws.contents p s2.dev ≡ concat (c ∷ cs))
  update-image p c cs s s1 s2 next starts run =
      upload-image p [] c cs s1 s2 (start-OnTarget p s s1 next starts) run
