-- ===== src/Jsmn.antt =====
-- The vendored JSON tokenizer private_include/jsmn.h, as far as the handler sees it. The tokenizer
-- is a parameter of the model; its documented behaviour is stated here.
use ota_ws_update.Base.{ℕ, ◌≤◌, ◌≡◌, ◌⊎◌, some, Bytes, List, length, get_elem?}
use ota_ws_update.Word.{sign_bit}

-- `jsmntok_t`: the positions of a token in the text, as patterns of `int`.
pub record JsmnToken : Type 0 where
  pub start : ℕ
  pub end : ℕ

-- What `jsmn_parse` returns, and the entries of the token array that it has filled.
pub record JsmnResult : Type 0 where
  pub r : ℕ
  pub tokens : List JsmnToken

-- `jsmn_parse(&p, js, strlen(js), t, num_tokens)` with a parser just initialised.
abbrev pub JsmnParse : Type 0
JsmnParse = Bytes → ℕ → JsmnResult

-- jsmn returns a negative code or the number of tokens that it has filled, never more than the
-- array holds, and a token lies inside the text.
pub record JsmnLaws (jsmn_parse : JsmnParse) : Type 0 where
  pub counts :
      (js : Bytes) (n : ℕ)
      → let p = jsmn_parse js n in
        (sign_bit ≤ p.r) ⊎ ((p.r ≡ length p.tokens) × (length p.tokens ≤ n))
  pub inside :
      (js : Bytes) (n i : ℕ) (t : JsmnToken)
      → get_elem? (jsmn_parse js n).tokens i ≡ some t
      → (t.start ≤ t.end) × (t.end ≤ length js)
