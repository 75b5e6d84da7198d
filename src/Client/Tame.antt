-- ===== src/Client/Tame.antt =====
-- What the page sends, whatever it is told and whatever the user does, is what the device's parser
-- takes apart safely.
use ota_ws_update.Base.{
  ℕ, zero, suc, ◌+◌, ◌<◌, ◌≡◌, refl, inr, true, some, [], ◌++◌, Bytes, arith, codes, lacks, length,
  length-append, get_elem?,
}
use ota_ws_update.Word.{sign_bit}
use ota_ws_update.Text.Decimal.{print_int}
use ota_ws_update.Text.Laws.{length-print_int, lacks-print_int}
use ota_ws_update.Jsmn.{JsmnParse, JsmnToken}
use ota_ws_update.Http.Keys
use ota_ws_update.Http.Message.{int_pair, string_pair}
use ota_ws_update.Http.Json.{num_tokens, parm_size}
use ota_ws_update.Http.Json.Pair.{pair_text, pair_tokens, c_string-terminated, lacks-pair}
use ota_ws_update.Http.Upload.{chunk_request}
use ota_ws_update.Http.Upload.Steps.{filled_whole}
use ota_ws_update.Http.Connection.{IsReadable, IsTame}
use ota_ws_update.Client.{text_request}
use ota_ws_update.Client.Ready.{FindsSize, size_text}
use ota_ws_update.Client.Commands.{Finds, command_request}

-- The tokenizer finds the tokens of everything that the page sends as a text.
pub record KnowsPage (jsmn_parse : JsmnParse) : Type 0 where
  pub sizes : (n : ℕ) → n < sign_bit → FindsSize jsmn_parse n
  pub cancel : Finds jsmn_parse Keys.ota_cancel (codes "Cancel")
  pub verify : Finds jsmn_parse Keys.ota_process_rollback (codes "false")
  pub roll_back : Finds jsmn_parse Keys.ota_process_rollback (codes "true")
  pub restart : Finds jsmn_parse Keys.ota_restart_esp (codes "restart")

pair_tokens-short :
    (name between value closing : Bytes) (i : ℕ) (t : JsmnToken)
    → length name < parm_size
    → length value < parm_size
    → length (pair_text name between value closing) < parm_size
    → get_elem? (pair_tokens name between value closing) i ≡ some t
    → t.end < t.start + parm_size
pair_tokens-short name between value closing zero t hn hv ht e = ground arith
pair_tokens-short name between value closing (suc zero) t hn hv ht e = ground arith
pair_tokens-short name between value closing (suc (suc zero)) t hn hv ht e = ground arith
pair_tokens-short name between value closing (suc (suc (suc zero))) t hn hv ht e = ground arith
pair_tokens-short name between value closing (suc (suc (suc (suc zero)))) t hn hv ht e =
    ground arith
pair_tokens-short name between value closing (suc (suc (suc (suc (suc i))))) t hn hv ht e = cc

pair-IsReadable :
    (jsmn_parse : JsmnParse) (name between value closing : Bytes)
    → length name < parm_size
    → length value < parm_size
    → length (pair_text name between value closing) < parm_size
    → jsmn_parse (pair_text name between value closing) num_tokens
      ≡ record { r = 5; tokens = pair_tokens name between value closing }
    → IsReadable jsmn_parse (pair_text name between value closing)
pair-IsReadable jsmn_parse name between value closing hn hv ht found = record {
  fits_word = omega arith;
  counted = inr (inr (rw found refl));
  short = λ i t e. pair_tokens-short name between value closing i t hn hv ht (rw found at e);
}

pair-IsTame :
    (jsmn_parse : JsmnParse) (name between value closing : Bytes)
    → lacks 0 (pair_text name between value closing) ≡ true
    → length name < parm_size
    → length value < parm_size
    → length (pair_text name between value closing) < parm_size
    → jsmn_parse (pair_text name between value closing) num_tokens
      ≡ record { r = 5; tokens = pair_tokens name between value closing }
    → IsTame jsmn_parse (text_request (pair_text name between value closing))
pair-IsTame jsmn_parse name between value closing no_zero hn hv ht found is_text =
    let whole = pair_text name between value closing in
    (
      ground arith,
      rw (filled_whole whole, c_string-terminated whole [] no_zero)
          (pair-IsReadable jsmn_parse name between value closing hn hv ht found),
    )

module _ (jsmn_parse : JsmnParse) (knows : KnowsPage jsmn_parse) where
  pub size-IsTame : (n : ℕ) → n < sign_bit → IsTame jsmn_parse (text_request (size_text n))
  unfolding int_pair
  size-IsTame n fits =
      let between = codes "\",\"value\":" in
      let short = length-print_int n in
      let long = length-append {0} {A = ℕ} (print_int n) (codes "}") in
      pair-IsTame jsmn_parse Keys.ota_size_start between (print_int n) (codes "}")
        (lacks-pair Keys.ota_size_start between (print_int n) (codes "}") refl refl
          (lacks-print_int n) refl)
        (omega arith) (omega arith) (omega (arith, long)) (knows.sizes n fits)

  pub command-IsTame :
      (name value : Bytes)
      → lacks 0 name ≡ true
      → lacks 0 value ≡ true
      → length name + length value < 30
      → Finds jsmn_parse name value
      → IsTame jsmn_parse (command_request name value)
  unfolding string_pair
  command-IsTame name value hn hv short found =
      let between = codes "\",\"value\":\"" in
      let long = length-append {0} {A = ℕ} name (between ++ (value ++ codes "\"}")) in
      let longer = length-append {0} {A = ℕ} value (codes "\"}") in
      pair-IsTame jsmn_parse name between value (codes "\"}")
        (lacks-pair name between value (codes "\"}") hn refl hv refl) (omega arith) (omega arith)
        (omega (arith, long, longer)) found

  pub chunk-IsTame : (c : Bytes) → IsTame jsmn_parse (chunk_request c)
  chunk-IsTame c is_text = cc
