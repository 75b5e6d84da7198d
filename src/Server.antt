-- ===== src/Server.antt =====
-- The web server: ESP-IDF's esp_http_server.h, a parameter of the model, and what
-- source/ota_ws_update_http.c registers with it.
pub mod Routes
use ota_ws_update.Base.{ℕ, ◌≡◌, ◌≢◌, Bool, true, false, List, [], ◌∷◌, Bytes, if◌then◌else◌}
use ota_ws_update.Esp.{EspErr, esp_ok, is_err, M, pure, done, ◌>>=◌, ◌>>◌, modify}

-- The functions that handle requests.
pub data HandlerName : Type 0 where
  ota_get_handler_name ota_ws_handler_name : HandlerName
  get_handler_name echo_handler_name : HandlerName

-- `httpd_uri_t`; every one is for the method GET and has no user context.
pub record HttpdUri : Type 0 where
  pub uri : Bytes
  pub handler : HandlerName
  pub is_websocket : Bool

-- A server's handle is a number, 0 for NULL.
pub record HttpdApi : Type 1 where
  pub Web : Type 0
  pub httpd_start : Web → (EspErr × ℕ) × Web
  pub httpd_stop : ℕ → Web → EspErr × Web
  pub httpd_register_uri_handler : ℕ → HttpdUri → Web → EspErr × Web
  -- of the component nvs_wifi_connect
  pub nvs_wifi_connect_register_uri_handler : ℕ → Web → EspErr × Web

-- What ESP-IDF documents: which servers run, and which URIs each serves.
pub record HttpdLaws (api : HttpdApi) : Type 0 where
  pub servers : api.Web → List ℕ
  pub routes : ℕ → api.Web → List HttpdUri
  pub starts :
      (h : ℕ) (d d' : api.Web)
      → api.httpd_start d ≡ ((esp_ok, h), d')
      → (h ≢ 0) × (servers d' ≡ h ∷ servers d)
  pub start_fails :
      (err : EspErr) (h : ℕ) (d d' : api.Web)
      → is_err err ≡ true
      → api.httpd_start d ≡ ((err, h), d')
      → servers d' ≡ servers d
  pub stops :
      (h : ℕ) (hs : List ℕ) (d d' : api.Web)
      → servers d ≡ h ∷ hs
      → api.httpd_stop h d ≡ (esp_ok, d')
      → servers d' ≡ hs
  pub stop_fails :
      (err : EspErr) (h : ℕ) (d d' : api.Web)
      → is_err err ≡ true
      → api.httpd_stop h d ≡ (err, d')
      → servers d' ≡ servers d
  pub registers :
      (h : ℕ) (u : HttpdUri) (d d' : api.Web)
      → api.httpd_register_uri_handler h u d ≡ (esp_ok, d')
      → routes h d' ≡ u ∷ routes h d
  pub register_fails :
      (err : EspErr) (h : ℕ) (u : HttpdUri) (d d' : api.Web)
      → is_err err ≡ true
      → api.httpd_register_uri_handler h u d ≡ (err, d')
      → routes h d' ≡ routes h d
  pub register_keeps :
      (h : ℕ) (u : HttpdUri) (d : api.Web)
      → servers (api.httpd_register_uri_handler h u d).1 ≡ servers d
  pub wifi_keeps :
      (h : ℕ) (d : api.Web) → servers (api.nvs_wifi_connect_register_uri_handler h d).1 ≡ servers d

-- A call that gives a result and the new state.
abbrev pub call : {S A : Type 0} → (S → A × S) → M S A
call f s = let (a, s') = f s in done a s'

-- `ota_get_handler`: the embedded page in one chunk, and the empty chunk that ends the response. The
-- state is the chunks sent, the last one first.
unfoldable pub ota_get_handler : Bytes → M (List Bytes) EspErr
ota_get_handler page = do modify λ chunks. page ∷ chunks; modify λ chunks. [] ∷ chunks; pure esp_ok

-- The URIs are CONFIG_OTA_DEFAULT_URI and CONFIG_OTA_DEFAULT_WS_URI.
abbrev pub gh : Bytes → HttpdUri
gh ota_default_uri = record {
  uri = ota_default_uri;
  handler = ota_get_handler_name;
  is_websocket = false;
}

abbrev pub ws : Bytes → HttpdUri
ws ota_default_ws_uri = record {
  uri = ota_default_ws_uri;
  handler = ota_ws_handler_name;
  is_websocket = true;
}

module _ (api : HttpdApi) where
  -- The second URI only if the first was registered.
  unfoldable pub register_both : HttpdUri → HttpdUri → ℕ → M api.Web EspErr
  register_both first second server = do
    ret ← call (api.httpd_register_uri_handler server first)
    if is_err ret then pure ret else call (api.httpd_register_uri_handler server second)

  unfoldable pub ota_ws_register_uri_handler : Bytes → Bytes → ℕ → M api.Web EspErr
  unfolding register_both
  ota_ws_register_uri_handler ota_default_uri ota_default_ws_uri =
      register_both (gh ota_default_uri) (ws ota_default_ws_uri)
