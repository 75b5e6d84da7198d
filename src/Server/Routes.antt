-- ===== src/Server/Routes.antt =====
-- What a server serves after a registration.
use ota_ws_update.Base.{ℕ, ◌≡◌, ◌⊎◌, true, ◌∷◌, Bytes, arith}
use ota_ws_update.Esp.{esp_ok, is_err}
use ota_ws_update.Backend.{Ends}
use ota_ws_update.Server.{HttpdApi, HttpdLaws, gh, ws, ota_ws_register_uri_handler}

-- The registration always returns. With ESP_OK the server serves the page and the web socket beside
-- what it served before; with an error it serves what it served before, or also the page.
pub ota_ws_register_uri_handler-routes :
    (api : HttpdApi) (laws : HttpdLaws api) (ota_default_uri ota_default_ws_uri : Bytes)
    (server : ℕ) (d : api.Web)
    → Ends ⊥
        (λ ret d'.
          ((ret ≡ esp_ok)
            × (laws.routes server d'
                ≡ ws ota_default_ws_uri ∷ gh ota_default_uri ∷ laws.routes server d))
          ⊎ ((is_err ret ≡ true)
              × ((laws.routes server d' ≡ laws.routes server d)
                  ⊎ (laws.routes server d' ≡ gh ota_default_uri ∷ laws.routes server d))))
        (ota_ws_register_uri_handler api ota_default_uri ota_default_ws_uri server d)
unfolding ota_ws_register_uri_handler
ota_ws_register_uri_handler-routes api laws u v server d =
    let r1 = api.httpd_register_uri_handler server (gh u) d in
    let r2 = api.httpd_register_uri_handler server (ws v) r1.1 in
    ground (
      arith,
      laws.registers server (gh u) d r1.1,
      laws.registers server (ws v) r1.1 r2.1,
      laws.register_fails r1.0 server (gh u) d r1.1,
      laws.register_fails r2.0 server (ws v) r1.1 r2.1,
    )
