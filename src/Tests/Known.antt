-- ===== src/Tests/Known.antt =====
-- A tokenizer that knows everything that the page sends.
use ota_ws_update.Base.{
  ℕ, zero, suc, ◌+◌, ◌-◌, ◌≤◌, ◌≡◌, refl, inl, inr, Bool, true, false, ◌&&◌, none, some, List, [],
  ◌∷◌, Bytes, codes, length, length-append, get_elem?, leb, ◌==◌, if◌then◌else◌, arith, Bool-cases,
}
use ota_ws_update.Word.{u32_mod}
use ota_ws_update.Text.Decimal.{print_int}
use ota_ws_update.Jsmn.{JsmnToken, JsmnParse, JsmnLaws}
use ota_ws_update.Http.Keys
use ota_ws_update.Http.Json.{num_tokens}
use ota_ws_update.Http.Json.Pair.{pair_text, pair_tokens}
use ota_ws_update.Client.Tame.{KnowsPage}
use ota_ws_update.Tests.Tokens.{token, knows, knows_laws}

-- The tokens of a text of `size` bytes that announces a size.
abbrev size_tokens : ℕ → List JsmnToken
size_tokens size = token 0 size ∷ token 2 6 ∷ token 9 16 ∷ token 19 24 ∷ token 26 (size - 1) ∷ []

abbrev knows_sizes : JsmnParse
knows_sizes js n =
    if leb 27 (length js) && leb 5 n
    then record { r = 5; tokens = size_tokens (length js) }
    else record { r = u32_mod - 2; tokens = [] }

sizes_within :
    (size i : ℕ) (t : JsmnToken)
    → 27 ≤ size
    → get_elem? (size_tokens size) i ≡ some t
    → (t.start ≤ t.end) × (t.end ≤ size)
sizes_within size zero t h e = ground arith
sizes_within size (suc zero) t h e = ground arith
sizes_within size (suc (suc zero)) t h e = ground arith
sizes_within size (suc (suc (suc zero))) t h e = ground arith
sizes_within size (suc (suc (suc (suc zero)))) t h e = ground arith
sizes_within size (suc (suc (suc (suc (suc i))))) t h e = cc

sizes_laws : JsmnLaws knows_sizes
sizes_laws = record {
  counts = λ js n. elim (Bool-cases (leb 27 (length js) && leb 5 n)) [
    | inl known ↦ rw known (inr (refl, ground arith))
    | inr unknown ↦ rw unknown (inl (omega arith))
  ];
  inside = λ js n i t e. elim (Bool-cases (leb 27 (length js) && leb 5 n)) [
    | inl known ↦ sizes_within (length js) i t (ground arith) (rw known at e)
    | inr unknown ↦ ground arith
  ];
}

-- The byte behind "ota" in the name.
abbrev fourth : ℕ → Bytes → Bool
fourth b js = elim (get_elem? js 12) [ none ↦ false | some c ↦ c == b ]

abbrev choose : (Bytes → Bool) → JsmnParse → JsmnParse → JsmnParse
choose test a b js n = if test js then a js n else b js n

choose_laws :
    (test : Bytes → Bool) (a b : JsmnParse) → JsmnLaws a → JsmnLaws b → JsmnLaws (choose test a b)
choose_laws test a b y n = record {
  counts = λ js k. elim (Bool-cases (test js)) [
    | inl h ↦ rw h (y.counts js k)
    | inr h ↦ rw h (n.counts js k)
  ];
  inside = λ js k i t e. elim (Bool-cases (test js)) [
    | inl h ↦ y.inside js k i t (rw h at e)
    | inr h ↦ n.inside js k i t (rw h at e)
  ];
}

abbrev tokens_of : Bytes → Bytes → List JsmnToken
tokens_of name value = pair_tokens name (codes "\",\"value\":\"") value (codes "\"}")

abbrev cancel_tokens : JsmnParse
cancel_tokens = knows (tokens_of Keys.ota_cancel (codes "Cancel")) 37

abbrev verify_tokens : JsmnParse
verify_tokens = knows (tokens_of Keys.ota_process_rollback (codes "false")) 45

abbrev rollback_tokens : JsmnParse
rollback_tokens = knows (tokens_of Keys.ota_process_rollback (codes "true")) 44

abbrev restart_tokens : JsmnParse
restart_tokens = knows (tokens_of Keys.ota_restart_esp (codes "restart")) 42

abbrev pub page_tokens : JsmnParse
page_tokens = choose (fourth b'S') knows_sizes (
    choose (fourth b'C') cancel_tokens (
      choose (fourth b'R') restart_tokens
        (choose (λ js. length js == 45) verify_tokens rollback_tokens)))

pub page_tokens_laws : JsmnLaws page_tokens
page_tokens_laws = choose_laws (fourth b'S') knows_sizes _ sizes_laws (
    choose_laws (fourth b'C') cancel_tokens _
      (knows_laws (tokens_of Keys.ota_cancel (codes "Cancel")) 37 refl)
      (choose_laws (fourth b'R') restart_tokens _
        (knows_laws (tokens_of Keys.ota_restart_esp (codes "restart")) 42 refl)
        (choose_laws (λ js. length js == 45) verify_tokens rollback_tokens
          (knows_laws (tokens_of Keys.ota_process_rollback (codes "false")) 45 refl)
          (knows_laws (tokens_of Keys.ota_process_rollback (codes "true")) 44 refl))))

-- The value ends in front of the last byte.
sizes_known :
    (digits : Bytes)
    → let between = codes "\",\"value\":" in
      knows_sizes (pair_text Keys.ota_size_start between digits (codes "}")) num_tokens
      ≡ record { r = 5; tokens = pair_tokens Keys.ota_size_start between digits (codes "}") }
sizes_known digits =
    let long = length-append {0} {A = ℕ} digits (codes "}") in
    let whole = length (pair_text Keys.ota_size_start (codes "\",\"value\":") digits (codes "}")) in
    let known : (leb 27 whole && leb 5 num_tokens) ≡ true = ground (arith, long) in
    let last : whole - 1 ≡ 26 + length digits = omega (arith, long) in rw (known, last) refl

pub page_known : KnowsPage page_tokens
page_known = record {
  sizes = λ n fits. sizes_known (print_int n);
  cancel = refl;
  verify = refl;
  roll_back = refl;
  restart = refl;
}
