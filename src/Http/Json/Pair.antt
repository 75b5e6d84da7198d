-- ===== src/Http/Json/Pair.antt =====
-- What `json_to_str_parm` makes of a JSON object with the pairs "name" and "value", the form in which
-- the web page sends its commands.
use ota_ws_update.Base.{
  ℕ, ◌+◌, ◌<◌, ◌≡◌, refl, ap, true, some, List, [], ◌∷◌, ◌++◌, append_assoc, Bytes, arith, codes,
  length, lacks, lacks-append, length-append, drop, take-append_length,
}
use ota_ws_update.Word.{u32_mod, sub32, int_ltb}
use ota_ws_update.Text.{c_string}
use ota_ws_update.Esp.{esp_ok, done}
use ota_ws_update.Jsmn.{JsmnToken, JsmnParse}
use ota_ws_update.Http.Json.{copy_token, json_to_str_parm, num_tokens, parm_size}

-- A text with no zero in it is a whole C string, whatever is behind its zero.
pub c_string_lem : (text : Bytes) → lacks 0 text ≡ true → c_string text ≡ text
unfolding c_string
c_string_lem [] h = refl
c_string_lem (c ∷ cs) h = ground (arith, c_string_lem cs)

pub c_string-terminated :
    (text behind : Bytes) → lacks 0 text ≡ true → c_string (text ++ (0 ∷ behind)) ≡ text
unfolding c_string
c_string-terminated [] behind h = refl
c_string-terminated (c ∷ cs) behind h = ground (arith, c_string-terminated cs behind)

drop-append_length : (a b : Bytes) → drop (length a) (a ++ b) ≡ b
drop-append_length [] b = refl
drop-append_length (c ∷ cs) b = drop-append_length cs b

sub32_plus : (a n : ℕ) → a + n < u32_mod → sub32 (a + n) a ≡ n
unfolding sub32
sub32_plus a n h = omega arith

-- A token that starts behind `before` and holds `text`.
copy_token-text :
    {S : Type 0} (before text behind : Bytes) (s : S)
    → lacks 0 text ≡ true
    → length text < parm_size
    → length (before ++ (text ++ behind)) < u32_mod
    → copy_token
        (before ++ (text ++ behind))
        (some (record { start = length before; end = length before + length text }))
        s
      ≡ done text s
unfolding copy_token
copy_token-text before text behind s h short word =
    let long = length-append {0} {A = ℕ} before (text ++ behind) in
    let longer = length-append {0} {A = ℕ} text behind in
    rw
      (
        sub32_plus (length before) (length text) (omega arith),
        drop-append_length,
        take-append_length,
        c_string_lem text h,
      )
      (ground arith)

abbrev pub name_prefix : Bytes
name_prefix = codes "{\"name\":\""

-- The object's text; `between` ends where the value begins.
abbrev pub pair_text : Bytes → Bytes → Bytes → Bytes → Bytes
pair_text name between value closing = name_prefix ++ (name ++ (between ++ (value ++ closing)))

-- Its tokens: the object, the string "name", the name, the string "value", the value.
abbrev pub pair_tokens : Bytes → Bytes → Bytes → Bytes → List JsmnToken
pair_tokens name between value closing =
    let n = 9 + length name in
    let v = n + length between in
    record { start = 0; end = length (pair_text name between value closing) }
    ∷ record { start = 2; end = 6 }
    ∷ record { start = 9; end = n }
    ∷ record { start = n + 3; end = n + 8 }
    ∷ record { start = v; end = v + length value }
    ∷ []

regroup :
    (name between value closing : Bytes)
    → pair_text name between value closing
      ≡ (name_prefix ++ (name ++ between)) ++ (value ++ closing)
regroup name between value closing = simp append_assoc

module _ (name between value closing : Bytes) where
  abbrev text : Bytes
  text = pair_text name between value closing

  pub lacks-pair :
      lacks 0 name ≡ true
      → lacks 0 between ≡ true
      → lacks 0 value ≡ true
      → lacks 0 closing ≡ true
      → lacks 0 text ≡ true
  lacks-pair hn hb hv hc =
      lacks-append 0 name_prefix (name ++ (between ++ (value ++ closing))) refl (
        lacks-append 0 name (between ++ (value ++ closing)) hn
          (lacks-append 0 between (value ++ closing) hb (lacks-append 0 value closing hv hc)))

  length-before : length (name_prefix ++ (name ++ between)) ≡ 9 + length name + length between
  length-before = omega (
    arith,
    length-append {0} {A = ℕ} name_prefix (name ++ between),
    length-append {0} {A = ℕ} name between,
  )

  copy_name :
      {S : Type 0} (s : S)
      → lacks 0 name ≡ true
      → length name < parm_size
      → length text < u32_mod
      → copy_token text (some (record { start = 9; end = 9 + length name })) s ≡ done name s
  copy_name s h short word =
      copy_token-text name_prefix name (between ++ (value ++ closing)) s h short word

  copy_value :
      {S : Type 0} (s : S)
      → lacks 0 value ≡ true
      → length value < parm_size
      → length text < u32_mod
      → let v = 9 + length name + length between in
        copy_token text (some (record { start = v; end = v + length value })) s ≡ done value s
  copy_value s h short word =
      rw (← length-before, regroup name between value closing)
        (copy_token-text (name_prefix ++ (name ++ between)) value closing s h short
          (omega (arith, ap length (regroup name between value closing))))

  -- Where jsmn finds the object's tokens, and neither the name nor the value has 64 bytes or more or a
  -- zero in it, the parser returns ESP_OK with exactly this name and this value, whatever the buffer
  -- holds behind the text.
  pub json_to_str_parm-pair :
      {S : Type 0} (jsmn_parse : JsmnParse) (behind : Bytes) (s : S)
      → lacks 0 name ≡ true
      → lacks 0 between ≡ true
      → lacks 0 value ≡ true
      → lacks 0 closing ≡ true
      → length name < parm_size
      → length value < parm_size
      → length text < u32_mod
      → jsmn_parse text num_tokens
        ≡ record { r = 5; tokens = pair_tokens name between value closing }
      → json_to_str_parm jsmn_parse (some (text ++ (0 ∷ behind))) s
        ≡ done (record { ret = esp_ok; name = name; value = value }) s
  unfolding json_to_str_parm int_ltb
  json_to_str_parm-pair jsmn_parse behind s hn hb hv hc name_fits value_fits word found =
      rw
        (
          c_string-terminated text behind (lacks-pair hn hb hv hc),
          found,
          copy_name s hn name_fits word,
          copy_value s hv value_fits word,
        )
        refl
