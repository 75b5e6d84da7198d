-- ===== src/Http/Message/Fits.antt =====
-- The texts fit the handler's buffers, so that `snprintf` cuts nothing off.
use ota_ws_update.Base.{
  ℕ, ◌+◌, ◌≤◌, ◌≡◌, refl, arith, Bytes, ◌++◌, [], codes, length, length-append, take_all,
}
use ota_ws_update.Text.{snprintf}
use ota_ws_update.Text.Decimal.{print_int}
use ota_ws_update.Text.Laws.{length-print_int}
use ota_ws_update.Http.Keys
use ota_ws_update.Http.Message.{
  int_pair, string_pair, next_chunk_message, first_chunk_message, set_chunk_size_message,
  end_message, error_message,
}

snprintf_whole : (text : Bytes) → length text ≤ 127 → snprintf 128 text ≡ text
unfolding snprintf
snprintf_whole text h = take_all 127 text h

length-int_pair :
    (name before : Bytes) (n : ℕ) (tail : Bytes)
    → length (int_pair name before n tail) ≤ 31 + length name + length before + length tail
unfolding int_pair
length-int_pair name before n tail = omega (
  arith,
  length-print_int n,
  length-append {0} {A = ℕ} (print_int n) tail,
  length-append {0} {A = ℕ} before (print_int n ++ tail),
  length-append {0} {A = ℕ} name (codes "\",\"value\":" ++ (before ++ (print_int n ++ tail))),
)

pub next_chunk_whole :
    (n : ℕ) → next_chunk_message n ≡ int_pair Keys.ota_get_chunk (codes " ") n (codes " }")
unfolding next_chunk_message
next_chunk_whole n =
    snprintf_whole (int_pair Keys.ota_get_chunk (codes " ") n (codes " }"))
      (omega (arith, length-int_pair Keys.ota_get_chunk (codes " ") n (codes " }")))

pub first_chunk_whole :
    (n : ℕ) → first_chunk_message n ≡ int_pair Keys.ota_get_chunk [] n (codes "}")
unfolding first_chunk_message
first_chunk_whole n =
    snprintf_whole (int_pair Keys.ota_get_chunk [] n (codes "}"))
      (omega (arith, length-int_pair Keys.ota_get_chunk [] n (codes "}")))

pub set_chunk_size_whole :
    (n : ℕ) → set_chunk_size_message n ≡ int_pair Keys.ota_set_chunk_size [] n (codes "}")
unfolding set_chunk_size_message
set_chunk_size_whole n =
    snprintf_whole (int_pair Keys.ota_set_chunk_size [] n (codes "}"))
      (omega (arith, length-int_pair Keys.ota_set_chunk_size [] n (codes "}")))

pub end_whole : end_message ≡ string_pair Keys.ota_end (codes "OK") (codes " }")
unfolding end_message snprintf string_pair
end_whole = refl

length-string_pair :
    (name value tail : Bytes)
    → length (string_pair name value tail) ≡ 21 + length name + length value + length tail
unfolding string_pair
length-string_pair name value tail = omega (
  arith,
  length-append {0} {A = ℕ} value (codes "\"" ++ tail),
  length-append {0} {A = ℕ} name (codes "\",\"value\":\"" ++ (value ++ (codes "\"" ++ tail))),
)

pub error_whole :
    (code msg : Bytes)
    → length code + length msg ≤ 100
    → error_message code msg ≡ string_pair code msg (codes "}")
unfolding error_message
error_whole code msg short =
    snprintf_whole (string_pair code msg (codes "}"))
      (omega (arith, length-string_pair code msg (codes "}")))
