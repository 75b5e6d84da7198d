-- ===== src/Text/Laws.antt =====
-- Comparing with `strncmp` up to the zero, and printing and reading an `int`.
use ota_ws_update.Base.{
  ℕ, zero, suc, ◌+◌, ◌-◌, ◌*◌, ◌/◌, ◌%◌, ◌≤◌, ◌<◌, ◌≡◌, refl, ◌↔◌, inl, inr, true, false, [], ◌++◌,
  ◌∙◌, ◌∷◌, arith, leb, ◌==◌, Bytes, length, lacks, Bool-cases,
}
use ota_ws_update.Word.{u32_mod, sign_bit}
use ota_ws_update.Text.{strncmp_is_zero, atoi, atoi_digits, atoi_result, is_digit}
use ota_ws_update.Text.Decimal.{decimal_onto, decimal, print_int}

strncmp_is_zero-eq : (a b : Bytes) → strncmp_is_zero a b (suc (length b)) ≡ true → a ≡ b
unfolding strncmp_is_zero
strncmp_is_zero-eq [] [] h = refl
strncmp_is_zero-eq [] (y ∷ b) h = cc
strncmp_is_zero-eq (x ∷ a) [] h = cc
strncmp_is_zero-eq (x ∷ a) (y ∷ b) h = ground (arith, strncmp_is_zero-eq a b)

strncmp_is_zero_self : (a : Bytes) (n : ℕ) → strncmp_is_zero a a n ≡ true
unfolding strncmp_is_zero
strncmp_is_zero_self a zero = refl
strncmp_is_zero_self [] (suc n) = refl
strncmp_is_zero_self (x ∷ a) (suc n) = ground (arith, strncmp_is_zero_self a n)

-- `strncmp(a, LIT, sizeof(LIT)) == 0` holds exactly when the two strings are equal.
pub strncmp_is_zero_iff : (a b : Bytes) → (strncmp_is_zero a b (suc (length b)) ≡ true) ↔ (a ≡ b)
strncmp_is_zero_iff a b =
    (strncmp_is_zero-eq a b, λ e. rw e (strncmp_is_zero_self b (suc (length b))))

abbrev digit_bound : ℕ → ℕ
digit_bound zero = 10
digit_bound (suc f) = 10 * digit_bound f

-- Reading what was printed with enough fuel goes on behind it with the number printed.
atoi_digits-decimal_onto :
    (f n : ℕ) (out : Bytes)
    → n < digit_bound f
    → atoi_digits 0 (decimal_onto f n out) ≡ atoi_digits n out
unfolding atoi_digits decimal_onto is_digit
atoi_digits-decimal_onto zero n out h = ground arith
atoi_digits-decimal_onto (suc f) n out h = elim (Bool-cases (n / 10 == 0)) [
  | inl last ↦ ground arith
  | inr more ↦ ground (arith, atoi_digits-decimal_onto f (n / 10) ((b'0' + n % 10) ∷ out))
]

-- The printed number begins with a digit.
pub record StartsWithDigit (text : Bytes) : Type 0 where
  pub first : ℕ
  pub others : Bytes
  pub splits : text ≡ first ∷ others
  pub lower : b'0' ≤ first
  pub upper : first ≤ b'9'

cons-StartsWithDigit : (n : ℕ) (out : Bytes) → StartsWithDigit ((b'0' + n % 10) ∷ out)
cons-StartsWithDigit n out = record {
  first = b'0' + n % 10;
  others = out;
  splits = refl;
  lower = omega arith;
  upper = omega arith;
}

pub decimal_onto-StartsWithDigit : (f n : ℕ) (out : Bytes) → StartsWithDigit (decimal_onto f n out)
unfolding decimal_onto
decimal_onto-StartsWithDigit zero n out = cons-StartsWithDigit n out
decimal_onto-StartsWithDigit (suc f) n out = elim (Bool-cases (n / 10 == 0)) [
  | inl last ↦ rw last (cons-StartsWithDigit n out)
  | inr more ↦ rw more (decimal_onto-StartsWithDigit f (n / 10) ((b'0' + n % 10) ∷ out))
]

atoi-StartsWithDigit :
    (text : Bytes) → StartsWithDigit text → atoi text ≡ atoi_result false (atoi_digits 0 text)
unfolding atoi
atoi-StartsWithDigit text d = rw d.splits (ground arith)

decimal-read : (n : ℕ) → n < u32_mod → atoi_digits 0 (decimal n) ≡ n
unfolding decimal atoi_digits
decimal-read n h = atoi_digits-decimal_onto 9 n [] (omega arith)

atoi-minus : (text : Bytes) → atoi (b'-' ∷ text) ≡ atoi_result true (atoi_digits 0 text)
unfolding atoi
atoi-minus text = ground arith

atoi-decimal : (n : ℕ) → atoi (decimal n) ≡ atoi_result false (atoi_digits 0 (decimal n))
unfolding decimal
atoi-decimal n = atoi-StartsWithDigit _ (decimal_onto-StartsWithDigit 9 n [])

-- The `int` that `%d` prints is the one that `atoi` reads back.
pub atoi-print_int : (n : ℕ) → n < u32_mod → atoi (print_int n) ≡ n
unfolding print_int atoi_result
atoi-print_int n h = elim (Bool-cases (leb sign_bit n)) [
  | inl negative ↦
      rw (negative, atoi-minus, decimal-read (u32_mod - n) (ground arith)) (ground arith)
  | inr positive ↦ rw (positive, atoi-decimal, decimal-read n h) (ground arith)
]

length-decimal_onto : (f n : ℕ) (out : Bytes) → length (decimal_onto f n out) ≤ suc f + length out
unfolding decimal_onto
length-decimal_onto zero n out = omega arith
length-decimal_onto (suc f) n out =
    ground (arith, length-decimal_onto f (n / 10) ((b'0' + n % 10) ∷ out))

-- A printed `int` has at most eleven characters.
pub length-print_int : (n : ℕ) → length (print_int n) ≤ 11
unfolding print_int decimal
length-print_int n =
    ground (arith, length-decimal_onto 9 n [], length-decimal_onto 9 (u32_mod - n) [])

lacks-decimal_onto :
    (f n : ℕ) (out : Bytes) → lacks 0 out ≡ true → lacks 0 (decimal_onto f n out) ≡ true
unfolding decimal_onto
lacks-decimal_onto zero n out h = ground arith
lacks-decimal_onto (suc f) n out h =
    ground (arith, lacks-decimal_onto f (n / 10) ((b'0' + n % 10) ∷ out))

-- No zero is printed in front of the one that ends the string.
pub lacks-print_int : (n : ℕ) → lacks 0 (print_int n) ≡ true
unfolding print_int decimal
lacks-print_int n =
    ground (arith, lacks-decimal_onto 9 n [] refl, lacks-decimal_onto 9 (u32_mod - n) [] refl)

decimal_onto-append :
    (f n : ℕ) (out rest : Bytes) → decimal_onto f n out ++ rest ≡ decimal_onto f n (out ++ rest)
unfolding decimal_onto
decimal_onto-append zero n out rest = refl
decimal_onto-append (suc f) n out rest = elim (Bool-cases (n / 10 == 0)) [
  | inl last ↦ rw last refl
  | inr more ↦ rw more (decimal_onto-append f (n / 10) ((b'0' + n % 10) ∷ out) rest)
]

-- A text behind a number that does not go on with a digit.
abbrev pub Stops : Bytes → Type 0
Stops [] = Unit
Stops (c ∷ _) = is_digit c ≡ false

atoi_digits-Stops : (n : ℕ) (rest : Bytes) → Stops rest → atoi_digits n rest ≡ n
unfolding atoi_digits
atoi_digits-Stops n [] h = refl
atoi_digits-Stops n (c ∷ cs) h = rw h refl

decimal-read_onto :
    (n : ℕ) (rest : Bytes) → n < u32_mod → Stops rest → atoi_digits 0 (decimal n ++ rest) ≡ n
unfolding decimal
decimal-read_onto n rest h stops =
    rw decimal_onto-append
      (atoi_digits-decimal_onto 9 n rest (omega arith) ∙ atoi_digits-Stops n rest stops)

atoi-decimal_onto :
    (n : ℕ) (rest : Bytes)
    → atoi (decimal n ++ rest) ≡ atoi_result false (atoi_digits 0 (decimal n ++ rest))
unfolding decimal
atoi-decimal_onto n rest =
    rw decimal_onto-append
      (atoi-StartsWithDigit (decimal_onto 9 n rest) (decimal_onto-StartsWithDigit 9 n rest))

-- `atoi` reads the printed `int` back, whatever follows it that is not a digit.
pub atoi-print_int-append :
    (n : ℕ) (rest : Bytes) → n < u32_mod → Stops rest → atoi (print_int n ++ rest) ≡ n
unfolding print_int atoi_result
atoi-print_int-append n rest h stops = elim (Bool-cases (leb sign_bit n)) [
  | inl negative ↦
      rw (negative, atoi-minus, decimal-read_onto (u32_mod - n) rest (ground arith) stops)
        (ground arith)
  | inr positive ↦ rw (positive, atoi-decimal_onto, decimal-read_onto n rest h stops) (ground arith)
]

-- Leading blanks are skipped.
pub atoi_blank : (text : Bytes) → atoi (b' ' ∷ text) ≡ atoi text
unfolding atoi
atoi_blank text = ground arith
