-- ===== src/Http/Message.antt =====
-- The JSON texts that the handler formats with `snprintf` into `char json_str[128]`.
pub mod Fits
use ota_ws_update.Base.{ℕ, ◌++◌, Bytes, codes}
use ota_ws_update.Text.{snprintf}
use ota_ws_update.Text.Decimal.{print_int}
use ota_ws_update.Http.Keys

abbrev pub json_str_size : ℕ
json_str_size = 128

-- "{\"name\":\"%s\",\"value\":\"%s\"", with what the format has behind it
unfoldable pub string_pair : Bytes → Bytes → Bytes → Bytes
string_pair name value tail =
    codes "{\"name\":\"" ++ (name ++ (codes "\",\"value\":\"" ++ (value ++ (codes "\"" ++ tail))))

-- "{\"name\":\"%s\",\"value\":%d}", with the spaces of the format round the number
unfoldable pub int_pair : Bytes → Bytes → ℕ → Bytes → Bytes
int_pair name before n tail =
    codes "{\"name\":\"" ++ (name ++ (codes "\",\"value\":" ++ (before ++ (print_int n ++ tail))))

unfoldable pub error_message : Bytes → Bytes → Bytes
unfolding string_pair
error_message code msg = snprintf json_str_size (string_pair code msg (codes "}"))

unfoldable pub check_rollback_message : Bytes
unfolding string_pair
check_rollback_message =
    snprintf json_str_size (string_pair Keys.ota_check_rollback (codes "true") (codes " }"))

unfoldable pub set_chunk_size_message : ℕ → Bytes
unfolding int_pair
set_chunk_size_message n =
    snprintf json_str_size (int_pair Keys.ota_set_chunk_size (codes "") n (codes "}"))

unfoldable pub first_chunk_message : ℕ → Bytes
unfolding int_pair
first_chunk_message n =
    snprintf json_str_size (int_pair Keys.ota_get_chunk (codes "") n (codes "}"))

unfoldable pub next_chunk_message : ℕ → Bytes
unfolding int_pair
next_chunk_message n =
    snprintf json_str_size (int_pair Keys.ota_get_chunk (codes " ") n (codes " }"))

unfoldable pub end_message : Bytes
unfolding string_pair
end_message = snprintf json_str_size (string_pair Keys.ota_end (codes "OK") (codes " }"))
