-- ===== src/Tests/Json.antt =====
-- A JSON parser that reads just the objects with "name" and "value".
use ota_ws_update.Base.{
  ℕ, zero, suc, ◌<◌, ◌≡◌, refl, ◌∙◌, Bool, true, false, some, Option, [], ◌∷◌, ◌++◌, Bytes, arith,
  codes, lacks, length, drop, ◌==◌, if◌then◌else◌, leb,
}
use ota_ws_update.Word.{sign_bit}
use ota_ws_update.Text.{atoi, is_digit}
use ota_ws_update.Text.Decimal.{print_int, decimal}
use ota_ws_update.Text.Laws.{
  atoi-print_int-append, atoi_blank, Stops, StartsWithDigit, decimal_onto-StartsWithDigit,
}
use ota_ws_update.Http.Message.{int_pair, string_pair}
use ota_ws_update.Client.{Json, JsonValue, number, string, JsonLaws, blanks, unescaped}

until_quote : Bytes → Bytes
until_quote [] = []
until_quote (c ∷ cs) = let rest = until_quote cs in if c == b'"' then [] else c ∷ rest

is_quoted : Bytes → Bool
is_quoted [] = false
is_quoted (c ∷ cs) = c == b'"'

read_value : Bytes → JsonValue
unfolding is_quoted
read_value text = if is_quoted text then string (until_quote (drop 1 text)) else number (atoi text)

unfoldable pub read_object : Bytes → Option (Bytes × JsonValue)
unfolding until_quote read_value
read_object text =
    let name = until_quote (drop 9 text) in
    some (name, read_value (drop 10 (drop (length name) (drop 9 text))))

unfoldable pub write_object : Bytes → JsonValue → Bytes
write_object name (number n) = int_pair name [] n (codes "}")
write_object name (string value) = string_pair name value (codes "}")

abbrev pub reader : Json
reader = record {
  parse = read_object;
  stringify = write_object;
  coerced_part = λ bytes from size. [];
}

-- No byte of the text is a quotation mark.
unescaped-lacks : (a : Bytes) → unescaped a ≡ true → lacks b'"' a ≡ true
unfolding unescaped
unescaped-lacks [] h = refl
unescaped-lacks (c ∷ cs) h = ground (arith, unescaped-lacks cs)

until_quote-append : (a b : Bytes) → lacks b'"' a ≡ true → until_quote (a ++ (b'"' ∷ b)) ≡ a
unfolding until_quote
until_quote-append [] b h = refl
until_quote-append (c ∷ cs) b h = ground (arith, until_quote-append cs b)

drop-append : (a b : Bytes) → drop (length a) (a ++ b) ≡ b
drop-append [] b = refl
drop-append (c ∷ cs) b = drop-append cs b

atoi-blanks : (k : ℕ) (text : Bytes) → atoi (blanks k ++ text) ≡ atoi text
atoi-blanks zero text = refl
atoi-blanks (suc k) text = atoi_blank (blanks k ++ text) ∙ atoi-blanks k text

blanks-Stops : (k : ℕ) → Stops (blanks k ++ codes "}")
unfolding is_digit
blanks-Stops zero = refl
blanks-Stops (suc k) = refl

digit_unquoted :
    (text : Bytes) (rest : Bytes) → StartsWithDigit text → is_quoted (text ++ rest) ≡ false
unfolding is_quoted
digit_unquoted text rest d = rw d.splits (ground (arith, d.lower, d.upper))

number_unquoted :
    (k n : ℕ) (rest : Bytes) → n < sign_bit → is_quoted (blanks k ++ (print_int n ++ rest)) ≡ false
unfolding print_int decimal is_quoted
number_unquoted zero n rest h =
    let positive : leb sign_bit n ≡ false = ground arith in
    rw positive (digit_unquoted (decimal n) rest (decimal_onto-StartsWithDigit 9 n []))
number_unquoted (suc k) n rest h = refl

read_number :
    (k n j : ℕ)
    → n < sign_bit
    → read_value (blanks k ++ (print_int n ++ (blanks j ++ codes "}"))) ≡ number n
unfolding read_value
read_number k n j h =
    rw
      (
        number_unquoted k n (blanks j ++ codes "}") h,
        atoi-blanks,
        atoi-print_int-append n (blanks j ++ codes "}") (omega arith) (blanks-Stops j),
      )
      refl

read_string :
    (value : Bytes) (j : ℕ)
    → lacks b'"' value ≡ true
    → read_value (codes "\"" ++ (value ++ (codes "\"" ++ (blanks j ++ codes "}")))) ≡ string value
unfolding read_value
read_string value j h = rw (until_quote-append value (blanks j ++ codes "}") h) refl

pub reader_laws : JsonLaws reader
unfolding read_object write_object int_pair string_pair
reader_laws = record {
  parse_number = λ name k n j h fits.
      rw (until_quote-append name _ (unescaped-lacks name h), drop-append, read_number k n j fits)
        refl;
  parse_string = λ name value j h hv.
      rw
        (
          until_quote-append name _ (unescaped-lacks name h),
          drop-append,
          read_string value j (unescaped-lacks value hv),
        )
        refl;
  stringify_number = λ name n h fits. refl;
  stringify_string = λ name value h hv. refl;
}
