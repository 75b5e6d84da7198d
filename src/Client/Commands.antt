-- ===== src/Client/Commands.antt =====
-- The commands that the page sends with a string as their value, as the device's parser reads them.
use ota_ws_update.Base.{
  ℕ, ◌<◌, ◌≡◌, refl, true, false, some, [], ◌++◌, Bytes, arith, codes, lacks, length, length-append,
  ◌==◌,
}
use ota_ws_update.Esp.{esp_ok, done}
use ota_ws_update.Jsmn.{JsmnParse}
use ota_ws_update.Http.Message.{string_pair}
use ota_ws_update.Http.Json.{json_to_str_parm, num_tokens, parm_size}
use ota_ws_update.Http.Json.Pair.{pair_text, pair_tokens, json_to_str_parm-pair}
use ota_ws_update.Http.Handler.{Request, filled}
use ota_ws_update.Http.Upload.Steps.{filled_whole}
use ota_ws_update.Client.{text_request}

-- The tokenizer finds the tokens of the object with this name and this string.
abbrev pub Finds : JsmnParse → Bytes → Bytes → Type 0
Finds jsmn_parse name value =
    let between = codes "\",\"value\":\"" in
    jsmn_parse (pair_text name between value (codes "\"}")) num_tokens
    ≡ record { r = 5; tokens = pair_tokens name between value (codes "\"}") }

abbrev pub command_request : Bytes → Bytes → Request
command_request name value = text_request (string_pair name value (codes "}"))

pub command-long : (name value : Bytes) → ((command_request name value).len == 0) ≡ false
unfolding string_pair
command-long name value = ground arith

pub command-parsed :
    {S : Type 0} (jsmn_parse : JsmnParse) (name value : Bytes) (s : S)
    → lacks 0 name ≡ true
    → lacks 0 value ≡ true
    → length name < parm_size
    → length value < parm_size
    → Finds jsmn_parse name value
    → let req = command_request name value in
      json_to_str_parm jsmn_parse (some (filled req.len req.payload)) s
      ≡ done (record { ret = esp_ok; name = name; value = value }) s
unfolding string_pair
command-parsed jsmn_parse name value s hn hv name_fits value_fits found =
    let long = length-append {0} {A = ℕ} name (codes "\",\"value\":\"" ++ (value ++ codes "\"}")) in
    let longer = length-append {0} {A = ℕ} value (codes "\"}") in
    rw (filled_whole (string_pair name value (codes "}"))) (
      json_to_str_parm-pair name (codes "\",\"value\":\"") value (codes "\"}") jsmn_parse [] s hn
        refl hv refl name_fits value_fits (omega (arith, long, longer)) found)
