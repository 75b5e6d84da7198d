-- ===== src/Stack/Boot/Verified.antt =====
-- source/ota_ws_update_esp_preencrypted.c behind the calls of an update: the partition holds what the
-- library esp_encrypted_img has made of the chunks.
use ota_ws_update.Base.{
  ℕ, ◌≡◌, refl, ◌∙◌, inl, inr, Bool, true, Option, none, some, List, [], ◌∷◌, ◌++◌, arith, Bytes,
  if◌then◌else◌,
}
use ota_ws_update.Esp.{EspErr, esp_ok, is_err, done}
use ota_ws_update.Device.{OtaApi, OtaLaws, BootLaws}
use ota_ws_update.EncryptedImg.{EncryptedImg}
use ota_ws_update.PreEncrypted.{PreEncOta}
use ota_ws_update.PreEncrypted.Output.{DecryptLaws}
use ota_ws_update.PreEncrypted.Writer.{
  start_ota_ws, write_ota_ws, end_ota_ws, check_ota_ws_rollback_enable, rollback_ota_ws,
}
use ota_ws_update.PreEncrypted.End.{end_ota_ws-then_abort}
use ota_ws_update.PreEncrypted.Target.{OnTarget, bytes_of}
use ota_ws_update.PreEncrypted.Taken.{write_input-OnTarget, write_null-refused}
use ota_ws_update.PreEncrypted.Image.{start-OnTarget, Holds, end_lem}
use ota_ws_update.PreEncrypted.Boot.{boot, rollback-dev}
use ota_ws_update.Http.Calls.{Call, started, wrote, ended, aborted}

-- The library's context behind these calls, the last one first, and all that it has given out, where an
-- update begins with the context ctx.
module _ (lib : EncryptedImg) where
  unfoldable pub context_of : lib.Ctx → List Call → lib.Ctx
  context_of ctx [] = ctx
  context_of ctx (started ret ∷ earlier) = ctx
  context_of ctx (wrote n none ret ∷ earlier) = context_of ctx earlier
  context_of ctx (wrote n (some buf) ret ∷ earlier) =
      let before = context_of ctx earlier in
      if is_err ret then before else (lib.decrypt_data buf n before).ctx
  context_of ctx (ended ret ∷ earlier) = context_of ctx earlier
  context_of ctx (aborted ret ∷ earlier) = context_of ctx earlier

  unfoldable pub image_of : lib.Ctx → List Call → Bytes
  image_of ctx [] = []
  image_of ctx (started ret ∷ earlier) = []
  image_of ctx (wrote n none ret ∷ earlier) = image_of ctx earlier
  image_of ctx (wrote n (some buf) ret ∷ earlier) =
      let before = image_of ctx earlier in
      let r = lib.decrypt_data buf n (context_of ctx earlier) in
      if is_err ret then before else before ++ bytes_of r.out r.out_len
  image_of ctx (ended ret ∷ earlier) = image_of ctx earlier
  image_of ctx (aborted ret ∷ earlier) = image_of ctx earlier

module _ (api : OtaApi) (ota_laws : OtaLaws api) (boot_laws : BootLaws api ota_laws)
    (lib : EncryptedImg) (laws : DecryptLaws lib) (rollback_enable : Bool)
    (rsa_private_pem : Bytes) where
  abbrev S : Type 0
  S = PreEncOta api.Dev lib.Ctx

  abbrev On : ℕ → Bytes → lib.Ctx → S → Type 0
  On = OnTarget api ota_laws lib laws rollback_enable rsa_private_pem

  -- A context that the library gives for the private key, where the heap is used up to `last`.
  abbrev IsGiven : lib.Ctx → Type 0
  IsGiven ctx = (last : ℕ) × (lib.decrypt_start rsa_private_pem last ≡ some ctx)

  -- Some partition holds what the library has made of the chunks, and the decryption goes on.
  abbrev pub Held : List Call → S → Type 0
  Held calls s =
      (ctx : lib.Ctx) × IsGiven ctx
      × (p : ℕ) × On p (image_of lib ctx calls) (context_of lib ctx calls) s

  abbrev pub Whole : List Call → S → Type 0
  Whole calls s =
      (ctx : lib.Ctx) × IsGiven ctx
      × (p : ℕ) × Holds api ota_laws lib laws rollback_enable rsa_private_pem p
          (image_of lib ctx calls) (context_of lib ctx calls) s.dev

  pub next-Held :
      (next : Option ℕ) (calls : List Call) (s s1 : S)
      → api.esp_ota_get_next_update_partition s.dev ≡ next
      → start_ota_ws api lib rollback_enable rsa_private_pem s ≡ done esp_ok s1
      → Held (started esp_ok ∷ calls) s1
  unfolding start_ota_ws image_of context_of
  next-Held none calls s s1 e run = absurd (ground arith)
  next-Held (some p) calls s s1 e run =
      let (ctx, made, t) =
        start-OnTarget api ota_laws lib laws rollback_enable rsa_private_pem p s s1 e run in
      (ctx, (s.heap.last, made), p, t)

  pub write-Held :
      (n : ℕ) (buf : Option Bytes) (calls : List Call) (s s1 : S)
      → Held calls s
      → write_ota_ws api lib rollback_enable rsa_private_pem n buf s ≡ done esp_ok s1
      → Held (wrote n buf esp_ok ∷ calls) s1
  unfolding image_of context_of
  write-Held n none calls s s1 (ctx, given, p, t) run = absurd (
      write_null-refused api ota_laws lib laws rollback_enable rsa_private_pem n s s1 t.some_handle
        run)
  write-Held n (some buf) calls s s1 (ctx, given, p, t) run = (
    ctx,
    given,
    p,
    write_input-OnTarget api ota_laws lib laws rollback_enable rsa_private_pem p
        (image_of lib ctx calls) buf n (context_of lib ctx calls) s s1 boot_laws.write_null t run,
  )

  pub end-boot :
      (calls : List Call) (s s1 : S) (ret : EspErr)
      → Held calls s
      → is_err ret ≡ true
      → end_ota_ws api lib rollback_enable rsa_private_pem s ≡ done ret s1
      → boot api ota_laws boot_laws lib rollback_enable rsa_private_pem s1
        ≡ boot api ota_laws boot_laws lib rollback_enable rsa_private_pem s
  end-boot calls s s1 ret (ctx, given, p, t) bad run =
      let good =
        (end_ota_ws-then_abort api lib rollback_enable rsa_private_pem s s1 ret t.owned
          t.some_handle run).0 in
      absurd (ground arith)

  pub end-Whole :
      (calls : List Call) (s s1 : S)
      → Held calls s
      → end_ota_ws api lib rollback_enable rsa_private_pem s ≡ done esp_ok s1
      → Whole (ended esp_ok ∷ calls) s1
  unfolding image_of context_of
  end-Whole calls s s1 (ctx, given, p, t) run = (
    ctx,
    given,
    p,
    end_lem api ota_laws lib laws rollback_enable rsa_private_pem p (image_of lib ctx calls)
        (context_of lib ctx calls) s s1 t run,
  )

  pub check_same :
      (s s1 : S) (pending : Bool)
      → check_ota_ws_rollback_enable api lib rollback_enable rsa_private_pem s ≡ done pending s1
      → s1 ≡ s
  unfolding check_ota_ws_rollback_enable
  check_same s s1 pending run = ground arith

  -- A device on which nothing of the update has changed.
  moved-On :
      (p : ℕ) (image : Bytes) (ctx : lib.Ctx) (s : S) (d : api.Dev)
      → (ota_laws.target s.update_handle d ≡ ota_laws.target s.update_handle s.dev)
        × (ota_laws.contents p d ≡ ota_laws.contents p s.dev)
      → On p image ctx s
      → On p image ctx (record s { dev = d })
  moved-On p image ctx s d (same_target, same_contents) t = record {
    partition = t.partition;
    bound = same_target ∙ t.bound;
    holds = same_contents ∙ t.holds;
    some_handle = t.some_handle;
    live = t.live;
    owned = record { handle_live = t.owned.handle_live; out_live = t.owned.out_live };
    had_output = t.had_output;
    decoding = t.decoding;
    fresh = t.fresh;
  }

  pub rollback-Held :
      (rollback : Bool) (calls : List Call) (s s1 : S) (ret : EspErr)
      → rollback_ota_ws api lib rollback_enable rsa_private_pem rollback s ≡ done ret s1
      → Held calls s
      → Held calls s1
  rollback-Held rollback calls s s1 ret run (ctx, given, p, t) =
      let h = s.update_handle in
      let (e, moved) =
        rollback-dev api ota_laws boot_laws lib rollback_enable rsa_private_pem rollback s s1 ret
          run in
      let same : (ota_laws.target h s1.dev ≡ ota_laws.target h s.dev)
          × (ota_laws.contents p s1.dev ≡ ota_laws.contents p s.dev) =
        elim moved [
          | inl none_of_it ↦ rw none_of_it (refl, refl)
          | inr (inl valid) ↦ rw valid (boot_laws.valid_keeps_update h p s.dev)
          | inr (inr invalid) ↦ boot_laws.invalid_keeps_update h p ret s.dev s1.dev invalid
        ] in
      (
        ctx,
        given,
        p,
        rw e (moved-On p (image_of lib ctx calls) (context_of lib ctx calls) s s1.dev same t),
      )
