-- ===== src/Esp.antt =====
-- ESP-IDF's result codes as the program tests them, and the monad of its stateful code: a call
-- returns a value and the new state, restarts the chip, or has undefined behaviour in C.
use ota_ws_update.Base.{ℕ, Bool, true, false, ◌≡◌, refl, arith, if◌then◌else◌, Bool-cases, inl, inr}

-- `esp_err_t`; `other` stands for every code that the program does not name.
pub data EspErr : Type 0 where
  esp_ok esp_fail esp_err_no_mem esp_err_invalid_arg esp_err_not_finished : EspErr
  esp_err_ota_validate_failed : EspErr
  other : ℕ → EspErr

-- `if (ret)`
abbrev pub is_err : EspErr → Bool
is_err esp_ok = false
is_err _ = true

-- What C leaves undefined and the program can run into.
pub data Fault : Type 0 where
  null_dereference : Fault
  uninitialised_read : Fault
  out_of_bounds_read : Fault
  buffer_overflow : Fault
  use_after_free : Fault
  double_free : Fault

pub data Outcome (S A : Type 0) : Type 0 where
  done : A → S → Outcome S A
  reboot : S → Outcome S A
  crash : Fault → Outcome S A

abbrev pub M : Type 0 → Type 0 → Type 0
M S A = S → Outcome S A

abbrev pub pure : {S A : Type 0} → A → M S A
pure a s = done a s

abbrev pub fault : {S A : Type 0} → Fault → M S A
fault f s = crash f

abbrev pub bind : {S A B : Type 0} → Outcome S A → (A → M S B) → Outcome S B
bind (done a s) k = k a s
bind (reboot s) k = reboot s
bind (crash f) k = crash f

infixl 5 ◌>>=◌ ◌>>◌
abbrev pub ◌>>=◌ : {S A B : Type 0} → M S A → (A → M S B) → M S B
◌>>=◌ m f s = bind (m s) f

abbrev pub ◌>>◌ : {S A B : Type 0} → M S A → M S B → M S B
m >> k = m >>= λ _. k

-- `modify f` is a plain assignment to the static variables.
abbrev pub modify : {S : Type 0} → (S → S) → M S (Unit {0})
modify f s = done tt (f s)

abbrev pub get : {S : Type 0} → M S S
get s = done s s

-- A call that returns, taken apart.
pub bind-eq-done :
    {S A B : Type 0} (o : Outcome S A) (k : A → M S B) {b : B} {s : S}
    → bind o k ≡ done b s
    → (a : A) × (s1 : S) × (o ≡ done a s1) × (k a s1 ≡ done b s)
bind-eq-done (done a s1) k h = (a, s1, refl, h)
bind-eq-done (reboot s1) k h = cc
bind-eq-done (crash f) k h = cc

-- A call that is not stopped by the error of the one before it.
pub passed :
    {S : Type 0} (ret : EspErr) (s : S) (m : M S EspErr) {b : S}
    → (if is_err ret then pure ret else m) s ≡ done esp_ok b
    → (ret ≡ esp_ok) × (m s ≡ done esp_ok b)
passed ret s m h = elim (Bool-cases (is_err ret)) [
  | inl failed ↦ ground arith
  | inr good ↦ ground arith
]

pub is_err-esp_ok : (ret : EspErr) → is_err ret ≡ false → ret ≡ esp_ok
is_err-esp_ok ret h = ground arith
