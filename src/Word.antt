-- ===== src/Word.antt =====
-- The 32-bit `int`, `uint32_t` and `size_t` of the ESP32. An `int` is kept as its bit pattern, a
-- number below 2 ^ 32, so that a mixed comparison with a `size_t` compares the patterns.
use ota_ws_update.Base.{ℕ, ◌+◌, ◌-◌, ◌%◌, ◌<◌, ◌≡◌, Bool, true, arith, ltb, leb, if◌then◌else◌}

abbrev pub u32_mod : ℕ
u32_mod = 4294967296

-- 2 ^ 31, the first pattern of a negative `int`.
abbrev pub sign_bit : ℕ
sign_bit = 2147483648

unfoldable pub add32 : ℕ → ℕ → ℕ
add32 a b = (a + b) % u32_mod

unfoldable pub sub32 : ℕ → ℕ → ℕ
sub32 a b = (a % u32_mod + u32_mod - b % u32_mod) % u32_mod

-- `a < k` on `int`, for a constant k that is not negative.
unfoldable pub int_ltb : ℕ → ℕ → Bool
int_ltb a k = if leb sign_bit a then true else ltb a k

pub add32-lt : (a b : ℕ) → add32 a b < u32_mod
unfolding add32
add32-lt a b = omega arith

pub add32_exact : (a b : ℕ) → a + b < u32_mod → add32 a b ≡ a + b
unfolding add32
add32_exact a b h = omega arith
