-- ===== src/Http/Json.antt =====
-- `json_to_str_parm`: a JSON text with one pair, taken apart into the buffers for name and value.
pub mod Pair
pub mod Answer
use ota_ws_update.Base.{
  ℕ, Option, none, some, ltb, leb, if◌then◌else◌, Bytes, [], length, get_elem?, take, drop,
}
use ota_ws_update.Word.{sub32, int_ltb}
use ota_ws_update.Text.{c_string}
use ota_ws_update.Esp.{
  EspErr, esp_ok, esp_fail, null_dereference, uninitialised_read, out_of_bounds_read,
  buffer_overflow, M, pure, fault, ◌>>=◌,
}
use ota_ws_update.Jsmn.{JsmnToken, JsmnParse}

-- The handler's `char json_key[64]` and `char json_value[64]`.
abbrev pub parm_size : ℕ
parm_size = 64

-- `jsmntok_t t[5]`
abbrev pub num_tokens : ℕ
num_tokens = 5

-- What `json_to_str_parm` returns, and the strings that it leaves in the two buffers.
pub record Parm : Type 0 where
  pub ret : EspErr
  pub name : Bytes
  pub value : Bytes

module _ {S : Type 0} where
  -- `strncpy(dest, js + t.start, t.end - t.start); dest[t.end - t.start] = 0;` for an entry of the
  -- token array; `strncpy` fills all of the length that it is given.
  unfoldable pub copy_token : Bytes → Option JsmnToken → M S Bytes
  copy_token js none = fault uninitialised_read
  copy_token js (some t) =
      let n = sub32 t.end t.start in
      if ltb (length js) t.start
      then fault out_of_bounds_read
      else if leb parm_size n
      then fault buffer_overflow
      else pure (c_string (take n (drop t.start js)))

  unfoldable pub json_to_str_parm : JsmnParse → Option Bytes → M S Parm
  json_to_str_parm jsmn_parse none = fault null_dereference
  json_to_str_parm jsmn_parse (some buf) =
      let js = c_string buf in
      let p = jsmn_parse js num_tokens in
      if int_ltb p.r 2 then pure (record { ret = esp_fail; name = []; value = [] }) else do
        name ← copy_token js (get_elem? p.tokens 2)
        value ← (if int_ltb 3 p.r then copy_token js (get_elem? p.tokens 4) else pure [])
        pure (record { ret = esp_ok; name = name; value = value })
