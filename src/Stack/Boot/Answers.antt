-- ===== src/Stack/Boot/Answers.antt =====
-- What follows a call of the flash writer in the protocol, and the partition that the device boots from.
use ota_ws_update.Base.{
  ℕ, ◌≤◌, ◌≡◌, ◌∙◌, inl, inr, true, false, Option, ◌∷◌, arith, Bytes, ltb, Bool-cases, codes,
}
use ota_ws_update.Word.{add32}
use ota_ws_update.Esp.{EspErr, esp_ok, is_err, is_err-esp_ok, Outcome, done, bind, pure, ◌>>◌}
use ota_ws_update.Backend.{Backend, Ends}
use ota_ws_update.Http.Keys
use ota_ws_update.Http.Message.{error_message}
use ota_ws_update.Http.Protocol.{
  Transfer, no_transfer, receiving, Peer, call, say, become, give_up, begin, finish, advance,
}
use ota_ws_update.Http.Calls.{Call, started, wrote, ended, aborted, logged, amount}
use ota_ws_update.Http.Calls.Steps.{recorded-Ends}
use ota_ws_update.Stack.Boot.{BootWriter, S, boots, IsWhole, Holding, Booted}

module _ (be : Backend) (writer : BootWriter be) (chunk_config : ℕ) where
  abbrev pub P : Type 0
  P = Peer (S be writer)

  abbrev pub boots_of : P → Option ℕ
  boots_of p = boots be writer p.backend

  -- What holds behind a step that has come during t, when the device booted from q.
  abbrev pub Behind : {A : Type 0} → Transfer → Option ℕ → A → P → Type 0
  Behind t q a p = Holding be writer p.transfer p.backend × Booted be writer t q p.backend

  abbrev pub Good : {A : Type 0} → Transfer → Option ℕ → Outcome P A → Type 0
  Good t q o = Ends (Unit {0}) (Behind t q) o

  -- The state behind a call.
  abbrev pub called : P → Call → be.State → P
  called p c b = record p { backend = record { inner = b; calls = c ∷ p.backend.calls } }

  pub same_boot :
      (t : Transfer) (q : Option ℕ) (s : S be writer)
      → boots be writer s ≡ q
      → Booted be writer t q s
  same_boot no_transfer q s h = h
  same_boot (receiving size k) q s h = inl h

  pub give_up-Good :
      (t : Transfer) (q : Option ℕ) (code msg : Bytes) (ret : EspErr) (p : P)
      → boots_of p ≡ q
      → Good t q (give_up (logged be) chunk_config code msg ret p)
  unfolding give_up call say become
  give_up-Good t q code msg ret p h =
      recorded-Ends (Behind t q) aborted (be.abort_ota_ws p.backend.inner)
        (record p { transfer = no_transfer }) (λ _. say (error_message code msg) >> pure ret)
        (λ r b run. (
          tt,
          same_boot t q (called p (aborted r) b).backend
              (writer.abort_boot p.backend.inner b r run ∙ h),
        ))

  finish-Good :
      (size k : ℕ) (q : Option ℕ) (ret : EspErr) (p : P)
      → (is_err ret ≡ true → boots_of p ≡ q)
      → (is_err ret ≡ false → IsWhole be writer size p.backend)
      → Good (receiving size k) q (finish (logged be) chunk_config ret p)
  unfolding finish say become
  finish-Good size k q ret p same whole = elim (Bool-cases (is_err ret)) [
    | inl bad ↦
        rw bad (
          give_up-Good (receiving size k) q Keys.ota_error (codes "Error end ota") ret p (same bad))
    | inr good ↦ rw good (tt, inr (whole good))
  ]

  pub begin-Good :
      (size : ℕ) (t : Transfer) (q : Option ℕ) (err : EspErr) (p : P)
      → boots_of p ≡ q
      → (err ≡ esp_ok → Holding be writer (receiving size 0) p.backend)
      → Good t q (begin (logged be) chunk_config size err p)
  unfolding begin say become
  begin-Good size t q err p same holds = elim (Bool-cases (is_err err)) [
    | inl bad ↦ rw bad (give_up-Good t q Keys.ota_error (codes "Error start ota") err p same)
    | inr good ↦ rw good (holds (is_err-esp_ok err good), same_boot t q p.backend same)
  ]

  ended-IsWhole :
      (size : ℕ) (r : EspErr) (p : P) (b : be.State)
      → writer.Held p.backend.calls p.backend.inner
      → size ≤ amount p.backend.calls
      → be.end_ota_ws p.backend.inner ≡ done r b
      → r ≡ esp_ok
      → IsWhole be writer size (called p (ended r) b).backend
  unfolding amount
  ended-IsWhole size r p b held enough run good = rw good (record {
    whole = writer.end_whole p.backend.calls p.backend.inner b held (rw good at run);
    enough = enough;
  })

  end-Good :
      (size k : ℕ) (q : Option ℕ) (p : P)
      → boots_of p ≡ q
      → writer.Held p.backend.calls p.backend.inner
      → size ≤ amount p.backend.calls
      → Good
          (receiving size k)
          q
          (bind (call (logged be).end_ota_ws p) (finish (logged be) chunk_config))
  unfolding call
  end-Good size k q p same held enough =
      recorded-Ends (Behind (receiving size k) q) ended (be.end_ota_ws p.backend.inner) p
        (finish (logged be) chunk_config)
        (λ r b run.
          finish-Good size k q r (called p (ended r) b)
            (λ bad. writer.end_boot p.backend.calls p.backend.inner b r held bad run ∙ same)
            (λ good. ended-IsWhole size r p b held enough run (is_err-esp_ok r good)))

  pub advance-Good :
      (size k next : ℕ) (q : Option ℕ) (ret : EspErr) (p : P)
      → boots_of p ≡ q
      → (ret ≡ esp_ok → Holding be writer (receiving size next) p.backend)
      → Good (receiving size k) q (advance (logged be) chunk_config size next ret p)
  unfolding advance say become
  advance-Good size k next q ret p same holds = elim (Bool-cases (is_err ret)) [
    | inl bad ↦
        rw bad
          (give_up-Good (receiving size k) q Keys.ota_error (codes "Error write ota") ret p same)
    | inr good ↦
        let (held, counted) = holds (is_err-esp_ok ret good) in
        elim (Bool-cases (ltb next size)) [
          | inl more ↦ rw (good, more) ((held, counted), inl same)
          | inr last ↦ rw (good, last) (end-Good size k q p same held (ground arith))
        ]
  ]

  pub written-Holding :
      (size start n : ℕ) (buf : Option Bytes) (ret : EspErr) (p : P) (b : be.State)
      → Holding be writer (receiving size start) p.backend
      → be.write_ota_ws n buf p.backend.inner ≡ done ret b
      → ret ≡ esp_ok
      → Holding be writer (receiving size (add32 start n)) (called p (wrote n buf ret) b).backend
  unfolding amount add32
  written-Holding size start n buf ret p b h run good = rw good (
    writer.write_held n buf p.backend.calls p.backend.inner b h.0 (rw good at run),
    omega (arith, h.1),
  )

  pub started-Holding :
      (size : ℕ) (ret : EspErr) (p : P) (b : be.State)
      → be.start_ota_ws p.backend.inner ≡ done ret b
      → ret ≡ esp_ok
      → Holding be writer (receiving size 0) (called p (started ret) b).backend
  unfolding amount
  started-Holding size ret p b run good =
      rw good (writer.start_held p.backend.calls p.backend.inner b (rw good at run), omega arith)
