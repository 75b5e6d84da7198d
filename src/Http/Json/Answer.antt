-- ===== src/Http/Json/Answer.antt =====
-- What `json_to_str_parm` answers does not depend on the state of the program.
use ota_ws_update.Base.{
  ◌≡◌, refl, inl, inr, [], Option, none, some, Bytes, ltb, if◌then◌else◌, Bool-cases, ◌⊎◌,
  get_elem?, take, drop, length, leb,
}
use ota_ws_update.Word.{sub32, int_ltb}
use ota_ws_update.Text.{c_string}
use ota_ws_update.Esp.{
  esp_ok, esp_fail, Fault, null_dereference, uninitialised_read, out_of_bounds_read,
  buffer_overflow, done, crash, M, bind, pure, ◌>>=◌,
}
use ota_ws_update.Jsmn.{JsmnParse, JsmnResult, JsmnToken}
use ota_ws_update.Http.Json.{Parm, json_to_str_parm, copy_token, num_tokens, parm_size}

-- The parser's answer, in any state.
abbrev pub placed : {S A : Type 0} → Fault ⊎ A → M S A
placed (inl f) s = crash f
placed (inr a) s = done a s

abbrev pub IsAnswer : {A : Type 0} → ((S : Type 0) → M S A) → Fault ⊎ A → Type 1
IsAnswer m r = (S : Type 0) (s : S) → m S s ≡ placed r s

copy_token-IsAnswer :
    (js : Bytes) (t : Option JsmnToken)
    → (r : Fault ⊎ Bytes) × IsAnswer (λ S. copy_token {S = S} js t) r
unfolding copy_token
copy_token-IsAnswer js none = (inl uninitialised_read, λ S s. refl)
copy_token-IsAnswer js (some t) = elim (Bool-cases (ltb (length js) t.start)) [
  | inl outside ↦ (inl out_of_bounds_read, λ S s. rw outside refl)
  | inr inside ↦ elim (Bool-cases (leb parm_size (sub32 t.end t.start))) [
    | inl long ↦ (inl buffer_overflow, λ S s. rw (inside, long) refl)
    | inr short ↦ (
      inr (c_string (take (sub32 t.end t.start) (drop t.start js))),
      λ S s. rw (inside, short) refl,
    )
  ]
]

value_token-IsAnswer :
    (js : Bytes) (p : JsmnResult)
    → (r : Fault ⊎ Bytes) × IsAnswer
        (λ S. if int_ltb 3 p.r then copy_token js (get_elem? p.tokens 4) else pure [])
        r
value_token-IsAnswer js p = elim (Bool-cases (int_ltb 3 p.r)) [
  | inl five ↦
      let v = copy_token-IsAnswer js (get_elem? p.tokens 4) in (v.0, λ S s. rw five (v.1 S s))
  | inr three ↦ (inr [], λ S s. rw three refl)
]

both-IsAnswer :
    {A C D : Type 0} (m : (S : Type 0) → M S A) (n : (S : Type 0) → M S C) (f : A → C → D)
    (r : Fault ⊎ A) (q : Fault ⊎ C)
    → IsAnswer m r
    → IsAnswer n q
    → (x : Fault ⊎ D) × IsAnswer (λ S s. bind (m S s) (λ a. n S >>= λ c. pure (f a c))) x
both-IsAnswer m n f (inl e) q hm hn = (inl e, λ S s. rw (hm S s) refl)
both-IsAnswer m n f (inr a) (inl e) hm hn = (inl e, λ S s. rw (hm S s, hn S s) refl)
both-IsAnswer m n f (inr a) (inr c) hm hn = (inr (f a c), λ S s. rw (hm S s, hn S s) refl)

pub json-IsAnswer :
    (jsmn_parse : JsmnParse) (buf : Option Bytes)
    → (r : Fault ⊎ Parm) × IsAnswer (λ S. json_to_str_parm {S = S} jsmn_parse buf) r
unfolding json_to_str_parm
json-IsAnswer jsmn_parse none = (inl null_dereference, λ S s. refl)
json-IsAnswer jsmn_parse (some buf) =
    let js = c_string buf in
    let p = jsmn_parse js num_tokens in
    elim (Bool-cases (int_ltb p.r 2)) [
      | inl few ↦ (inr (record { ret = esp_fail; name = []; value = [] }), λ S s. rw few refl)
      | inr enough ↦
          let n = copy_token-IsAnswer js (get_elem? p.tokens 2) in
          let v = value_token-IsAnswer js p in
          let r =
            both-IsAnswer (λ S. copy_token {S = S} js (get_elem? p.tokens 2))
              (λ S. if int_ltb 3 p.r then copy_token js (get_elem? p.tokens 4) else pure [])
              (λ name value. record { ret = esp_ok; name = name; value = value }) n.0 v.0 n.1 v.1 in
          (r.0, λ S s. rw enough (r.1 S s))
    ]
