-- ===== src/Text.antt =====
-- What the handlers use of C's string library. A C string is the list of its bytes before the
-- terminating zero; the memory that holds it may go on behind that zero.
pub mod Decimal
pub mod Laws
use ota_ws_update.Base.{
  ℕ, zero, suc, ◌+◌, ◌-◌, ◌*◌, ◌%◌, Bool, true, false, ◌&&◌, ◌||◌, List, [], ◌∷◌, ltb, leb, ◌==◌,
  if◌then◌else◌, Bytes, take,
}
use ota_ws_update.Word.{u32_mod, sign_bit}

-- The C string that starts at the first byte of the memory given.
unfoldable pub c_string : Bytes → Bytes
c_string [] = []
c_string (c ∷ cs) = let rest = c_string cs in if c == 0 then [] else c ∷ rest

-- `strncmp(a, b, n) == 0`; a string that has ended compares as its zero.
unfoldable pub strncmp_is_zero : Bytes → Bytes → ℕ → Bool
strncmp_is_zero a b zero = true
strncmp_is_zero [] [] (suc n) = true
strncmp_is_zero [] (_ ∷ _) (suc n) = false
strncmp_is_zero (_ ∷ _) [] (suc n) = false
strncmp_is_zero (x ∷ a) (y ∷ b) (suc n) = x == y && strncmp_is_zero a b n

-- `snprintf(buf, size, …)` keeps the bytes that fit in front of the zero.
unfoldable pub snprintf : ℕ → Bytes → Bytes
snprintf size text = take (size - 1) text

is_space : ℕ → Bool
is_space c = c == b' ' || (leb 9 c && leb c 13)

unfoldable pub is_digit : ℕ → Bool
is_digit c = leb b'0' c && leb c b'9'

-- The value of the digits in front.
atoi_digits : ℕ → Bytes → ℕ
atoi_digits acc [] = acc
atoi_digits acc (c ∷ cs) =
    let rest = atoi_digits (acc * 10 + (c - b'0')) cs in if is_digit c then rest else acc

-- The pattern of a value with its sign; one that does not fit an `int` is cut off at the nearest
-- that does, as `(int)strtol(s, NULL, 10)` does where `long` has 32 bits.
atoi_result : Bool → ℕ → ℕ
atoi_result true v = if leb sign_bit v then sign_bit else (u32_mod - v) % u32_mod
atoi_result false v = if leb sign_bit v then sign_bit - 1 else v

atoi_sign : Bytes → ℕ
unfolding atoi_digits atoi_result is_digit
atoi_sign [] = 0
atoi_sign (c ∷ cs) =
    if c == b'-'
    then atoi_result true (atoi_digits 0 cs)
    else if c == b'+'
    then atoi_result false (atoi_digits 0 cs)
    else atoi_result false (atoi_digits 0 (c ∷ cs))

-- `atoi`, as the pattern of its `int`.
unfoldable pub atoi : Bytes → ℕ
unfolding atoi_sign is_space
atoi [] = 0
atoi (c ∷ cs) = let rest = atoi cs in if is_space c then rest else atoi_sign (c ∷ cs)
