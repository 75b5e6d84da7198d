-- ===== src/Backend.antt =====
-- The interface between the web socket handler and the flash writer, of
-- private_include/ota_ws_update_private.h: `source/ota_ws_update_esp.c` (Plain) and
-- `source/ota_ws_update_esp_preencrypted.c` (PreEncrypted) implement it, and the build takes one.
pub mod Course
use ota_ws_update.Base.{ℕ, ◌≤◌, ◌≡◌, Bool, Option, none, some, Bytes, length}
use ota_ws_update.Esp.{EspErr, Outcome, done, reboot, crash, M, bind}

-- A pointer to data is the memory behind it, `none` for NULL.
pub record Backend : Type 1 where
  pub State : Type 0
  pub start_ota_ws : M State EspErr
  pub write_ota_ws : ℕ → Option Bytes → M State EspErr
  pub end_ota_ws : M State EspErr
  pub abort_ota_ws : M State EspErr
  pub check_ota_ws_rollback_enable : M State Bool
  pub rollback_ota_ws : Bool → M State EspErr

-- What holds of a call's result: P of the value and the state in which it returns, nothing if it
-- restarts the chip, and X if it has undefined behaviour. With ⊥ for X there is none.
abbrev pub Ends : {S A : Type 0} → Type 0 → (A → S → Type 0) → Outcome S A → Type 0
Ends X P (done a s) = P a s
Ends X P (reboot s) = Unit
Ends X P (crash f) = X

-- The pointer is NULL and no byte is announced, or the buffer holds the bytes announced.
abbrev pub Holds : Option Bytes → ℕ → Type 0
Holds none n = n ≡ 0
Holds (some buf) n = n ≤ length buf

-- The contract of a flash writer: an invariant of its state that every call keeps, with no
-- undefined behaviour where X is ⊥.
pub record Keeps (X : Type 0) (be : Backend) (P : be.State → Type 0) : Type 0 where
  pub start_keeps : (s : be.State) → P s → Ends X (λ _. P) (be.start_ota_ws s)
  pub write_keeps :
      (n : ℕ) (buf : Option Bytes) (s : be.State)
      → P s
      → Holds buf n
      → Ends X (λ _. P) (be.write_ota_ws n buf s)
  pub end_keeps : (s : be.State) → P s → Ends X (λ _. P) (be.end_ota_ws s)
  pub abort_keeps : (s : be.State) → P s → Ends X (λ _. P) (be.abort_ota_ws s)
  pub check_keeps : (s : be.State) → P s → Ends X (λ _. P) (be.check_ota_ws_rollback_enable s)
  pub rollback_keeps :
      (rollback : Bool) (s : be.State) → P s → Ends X (λ _. P) (be.rollback_ota_ws rollback s)

-- Every flash writer keeps the invariant that says nothing, if undefined behaviour is allowed.
Ends-trivial : {S A : Type 0} (o : Outcome S A) → Ends (Unit {0}) (λ _ _. Unit {0}) o
Ends-trivial (done a s) = tt
Ends-trivial (reboot s) = tt
Ends-trivial (crash f) = tt

pub Keeps_trivial : (be : Backend) → Keeps (Unit {0}) be (λ _. Unit {0})
Keeps_trivial be = record {
  start_keeps = λ s _. Ends-trivial (be.start_ota_ws s);
  write_keeps = λ n buf s _ _. Ends-trivial (be.write_ota_ws n buf s);
  end_keeps = λ s _. Ends-trivial (be.end_ota_ws s);
  abort_keeps = λ s _. Ends-trivial (be.abort_ota_ws s);
  check_keeps = λ s _. Ends-trivial (be.check_ota_ws_rollback_enable s);
  rollback_keeps = λ r s _. Ends-trivial (be.rollback_ota_ws r s);
}

-- A call and what is done with its result.
pub >>=-Ends :
    {S A B : Type 0} (X : Type 0) (P : A → S → Type 0) (Q : B → S → Type 0) (o : Outcome S A)
    (k : A → M S B)
    → Ends X P o
    → ((a : A) (s : S) → P a s → Ends X Q (k a s))
    → Ends X Q (bind o k)
>>=-Ends X P Q (done a s) k h next = next a s h
>>=-Ends X P Q (reboot s) k h next = tt
>>=-Ends X P Q (crash f) k h next = h

pub Ends-mono :
    {S A : Type 0} (X : Type 0) (P Q : A → S → Type 0) (o : Outcome S A)
    → Ends X P o
    → ((a : A) (s : S) → P a s → Q a s)
    → Ends X Q o
Ends-mono X P Q (done a s) h f = f a s h
Ends-mono X P Q (reboot s) h f = tt
Ends-mono X P Q (crash f) h g = h

-- A call that returns, whatever code it returns, in a state of which P holds.
abbrev pub Answers : {S : Type 0} → (S → Type 0) → Outcome S EspErr → Type 0
Answers {S} P o = (ret : EspErr) × (s : S) × (o ≡ done ret s) × P s

-- The calls that make up an update return, from every state of which P holds.
pub record Returns (be : Backend) (P : be.State → Type 0) : Type 0 where
  pub start_returns : (s : be.State) → P s → Answers P (be.start_ota_ws s)
  pub write_returns :
      (n : ℕ) (buf : Option Bytes) (s : be.State)
      → P s
      → Holds buf n
      → Answers P (be.write_ota_ws n buf s)
  pub end_returns : (s : be.State) → P s → Answers P (be.end_ota_ws s)
  pub abort_returns : (s : be.State) → P s → Answers P (be.abort_ota_ws s)
