-- ===== src/Http/TextFrame.antt =====
-- A text frame that reaches the JSON parser.
use ota_ws_update.Base.{◌≡◌, true, false}
use ota_ws_update.Esp.{esp_ok}
use ota_ws_update.Http.Handler.{Request, text}

-- A text frame that arrives whole: the server and the allocator have answered.
pub record IsTextFrame (req : Request) : Type 0 where
  pub not_get : req.is_get ≡ false
  pub has_len : req.len_ret ≡ esp_ok
  pub is_text : req.frame_type ≡ text
  pub allocated : req.calloc_ok ≡ true
  pub has_payload : req.payload_ret ≡ esp_ok
