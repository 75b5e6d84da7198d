-- ===== src/Text/Decimal.antt =====
-- `%d` of `snprintf`.
use ota_ws_update.Base.{ℕ, zero, suc, ◌+◌, ◌-◌, ◌/◌, ◌%◌, [], ◌∷◌, leb, ◌==◌, if◌then◌else◌, Bytes}
use ota_ws_update.Word.{u32_mod, sign_bit}

-- The digits of n in front of `out`, on fuel for the digits that may follow the last one.
unfoldable pub decimal_onto : ℕ → ℕ → Bytes → Bytes
decimal_onto zero n out = (b'0' + n % 10) ∷ out
decimal_onto (suc f) n out =
    let more = decimal_onto f (n / 10) ((b'0' + n % 10) ∷ out) in
    if n / 10 == 0 then (b'0' + n % 10) ∷ out else more

-- A number below 2 ^ 32 has at most ten digits.
unfoldable pub decimal : ℕ → Bytes
unfolding decimal_onto
decimal n = decimal_onto 9 n []

-- `%d` of the `int` with this pattern.
unfoldable pub print_int : ℕ → Bytes
unfolding decimal
print_int n = if leb sign_bit n then b'-' ∷ decimal (u32_mod - n) else decimal n
