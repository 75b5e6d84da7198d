-- ===== src/Plain/Returns.antt =====
-- The calls of the plain flash writer that make up an update return.
use ota_ws_update.Base.{ℕ, ◌≡◌, refl, Bool, Option, none, some, arith, Bytes}
use ota_ws_update.Device.{OtaApi}
use ota_ws_update.Backend.{Answers, Holds, Returns}
use ota_ws_update.Plain.{EspOta, start_ota_ws, write_ota_ws, end_ota_ws, abort_ota_ws, plain}
use ota_ws_update.Esp.{Outcome, EspErr, done, reboot, crash}

-- A call that neither restarts the chip nor has undefined behaviour.
abbrev pub HasReturned : {S : Type 0} → Outcome S EspErr → Type 0
HasReturned (done ret s) = Unit {0}
HasReturned (reboot s) = ⊥
HasReturned (crash f) = ⊥

pub answers : {S : Type 0} (o : Outcome S EspErr) → HasReturned o → Answers (λ _. Unit {0}) o
answers (done ret s) h = (ret, s, refl, tt)
answers (reboot s) h = absurd h
answers (crash f) h = absurd h

module _ (api : OtaApi) (rollback_enable : Bool) where
  pub start_returns :
      (p : ℕ) (s : EspOta api.Dev)
      → api.esp_ota_get_next_update_partition s.dev ≡ some p
      → HasReturned (start_ota_ws api rollback_enable s)
  unfolding start_ota_ws
  start_returns p s e = ground arith

  pub write_returns :
      (n : ℕ) (buf : Option Bytes) (s : EspOta api.Dev)
      → Holds buf n
      → HasReturned (write_ota_ws api rollback_enable n buf s)
  unfolding write_ota_ws
  write_returns n none s h = ground arith
  write_returns n (some buf) s h = ground arith

  pub end_returns : (s : EspOta api.Dev) → HasReturned (end_ota_ws api rollback_enable s)
  unfolding end_ota_ws
  end_returns s = ground arith

  pub abort_returns : (s : EspOta api.Dev) → HasReturned (abort_ota_ws api rollback_enable s)
  unfolding abort_ota_ws
  abort_returns s = tt

  -- On a device that always has a partition for the next update, they return in every state.
  pub plain-Returns :
      ((d : api.Dev) → (p : ℕ) × (api.esp_ota_get_next_update_partition d ≡ some p))
      → Returns (plain api rollback_enable) (λ _. Unit {0})
  plain-Returns next = record {
    start_returns = λ s _. answers _ (start_returns (next s.dev).0 s (next s.dev).1);
    write_returns = λ n buf s _ h. answers _ (write_returns n buf s h);
    end_returns = λ s _. answers _ (end_returns s);
    abort_returns = λ s _. answers _ (abort_returns s);
  }
