-- ===== src/Client/Pieces.antt =====
-- The parts of a file that the device asks for, one after another.
use ota_ws_update.Base.{
  ℕ, zero, suc, ◌+◌, ◌-◌, ◌≤◌, ◌<◌, ◌≡◌, refl, List, [], ◌∷◌, ◌++◌, Bytes, arith, length, take,
  take_all, drop, ltb, sym, ◌∙◌, if◌then◌else◌, append-nil, ap, Bool-cases, inl, inr,
}
use native.Mathlib.Nat.{zero-add, suc-add}
use ota_ws_update.Plain.Image.{concat}

-- `c` and then `cs` are the file in parts of n bytes, the last of which may be shorter.
abbrev pub IsSplit : ℕ → Bytes → Bytes → List Bytes → Type 0
IsSplit n file c [] = (c ≡ file) × (0 < length file) × (length file ≤ n)
IsSplit n file c (d ∷ ds) = (c ≡ take n file) × (n < length file) × IsSplit n (drop n file) d ds

-- The parts behind the first, on fuel for their number.
unfoldable pub parts : ℕ → ℕ → Bytes → List Bytes
parts zero n file = []
parts (suc f) n file =
    let more = take n (drop n file) ∷ parts f n (drop n file) in
    if ltb n (length file) then more else []

take_nil {ℓ} : {A : Type ℓ} (n : ℕ) → take {A = A} n [] ≡ []
take_nil zero = refl
take_nil (suc n) = refl

pub take-drop {ℓ} : {A : Type ℓ} (n : ℕ) (xs : List A) → take n xs ++ drop n xs ≡ xs
take-drop zero xs = refl
take-drop (suc n) [] = refl
take-drop (suc n) (x ∷ xs) = ap (◌∷◌ x) (take-drop n xs)

pub take_more {ℓ} :
    {A : Type ℓ} (m n : ℕ) (xs : List A) → take m xs ++ take n (drop m xs) ≡ take (m + n) xs
take_more zero n xs = rw zero-add refl
take_more (suc m) n [] = take_nil n ∙ sym (take_nil (suc m + n))
take_more (suc m) n (x ∷ xs) = rw suc-add (ap (◌∷◌ x) (take_more m n xs))

pub length-drop {ℓ} : {A : Type ℓ} (n : ℕ) (xs : List A) → length (drop n xs) ≡ length xs - n
length-drop zero xs = omega arith
length-drop (suc n) [] = omega arith
length-drop (suc n) (x ∷ xs) = omega (arith, length-drop n xs)

drop_nil {ℓ} : {A : Type ℓ} (n : ℕ) → drop {A = A} n [] ≡ []
drop_nil zero = refl
drop_nil (suc n) = refl

pub drop-drop {ℓ} : {A : Type ℓ} (m n : ℕ) (xs : List A) → drop n (drop m xs) ≡ drop (m + n) xs
drop-drop zero n xs = rw zero-add refl
drop-drop (suc m) n [] = drop_nil n ∙ sym (drop_nil (suc m + n))
drop-drop (suc m) n (x ∷ xs) = rw suc-add (drop-drop m n xs)

-- The parts of a file that is not empty are a split, for parts that are not empty.
pub parts-IsSplit :
    (f n : ℕ) (file : Bytes)
    → 0 < n
    → 0 < length file
    → length file ≤ f
    → IsSplit n file (take n file) (parts f n file)
unfolding parts
parts-IsSplit zero n file pos some_byte fuel = absurd (omega arith)
parts-IsSplit (suc f) n file pos some_byte fuel = elim (Bool-cases (ltb n (length file))) [
  | inl more ↦ rw more (
    refl,
    ground arith,
    parts-IsSplit f n (drop n file) pos (ground (arith, length-drop n file))
        (ground (arith, length-drop n file)),
  )
  | inr last ↦ rw last (take_all n file (ground arith), some_byte, ground arith)
]

pub concat-IsSplit :
    (n : ℕ) (file c : Bytes) (cs : List Bytes) → IsSplit n file c cs → concat (c ∷ cs) ≡ file
concat-IsSplit n file c [] h = rw append-nil h.0
concat-IsSplit n file c (d ∷ ds) h =
    rw (concat-IsSplit n (drop n file) d ds h.2, h.0) (take-drop n file)
