-- ===== src/Tests/Tokens.antt =====
-- A tokenizer that knows the tokens of one text.
use ota_ws_update.Base.{
  ℕ, zero, suc, ◌-◌, ◌≤◌, ◌≡◌, refl, inl, inr, Bool, true, ◌&&◌, some, List, [], ◌∷◌, length,
  get_elem?, leb, ◌==◌, if◌then◌else◌, arith, Bool-cases,
}
use ota_ws_update.Word.{u32_mod}
use ota_ws_update.Jsmn.{JsmnToken, JsmnParse, JsmnLaws}

-- The tokens of a text of `size` bytes; any other text is refused with a negative code.
abbrev pub knows : List JsmnToken → ℕ → JsmnParse
knows tokens size js n =
    if (length js == size) && leb (length tokens) n
    then record { r = length tokens; tokens = tokens }
    else record { r = u32_mod - 2; tokens = [] }

abbrev pub token : ℕ → ℕ → JsmnToken
token start end = record { start = start; end = end }

abbrev all_within : List JsmnToken → ℕ → Bool
all_within [] size = true
all_within (t ∷ ts) size = (leb t.start t.end && leb t.end size) && all_within ts size

within :
    (ts : List JsmnToken) (size i : ℕ) (t : JsmnToken)
    → all_within ts size ≡ true
    → get_elem? ts i ≡ some t
    → (t.start ≤ t.end) × (t.end ≤ size)
within [] size i t h e = cc
within (x ∷ ts) size zero t h e = ground arith
within (x ∷ ts) size (suc i) t h e = within ts size i t (ground arith) e

pub knows_laws :
    (tokens : List JsmnToken) (size : ℕ)
    → all_within tokens size ≡ true
    → JsmnLaws (knows tokens size)
knows_laws tokens size h = record {
  counts = λ js n. elim (Bool-cases ((length js == size) && leb (length tokens) n)) [
    | inl known ↦ rw known (inr (refl, ground arith))
    | inr unknown ↦ rw unknown (inl (omega arith))
  ];
  inside = λ js n i t e. elim (Bool-cases ((length js == size) && leb (length tokens) n)) [
    | inl known ↦ ground (arith, within tokens size i t h (rw known at e))
    | inr unknown ↦ ground arith
  ];
}
