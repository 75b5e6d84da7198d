-- ===== src/Tests/Web.antt =====
-- A web server that starts, stops and registers without errors, and the theorems on the code that
-- uses it.
use ota_ws_update.Base.{suc, ℕ, ◌≡◌, ◌⊎◌, refl, true, List, [], ◌∷◌, arith, codes, length}
use ota_ws_update.Esp.{esp_ok, esp_fail, is_err, done}
use ota_ws_update.Backend.{Ends}
use ota_ws_update.Server.{
  HttpdApi, HttpdLaws, HttpdUri, gh, ws, ota_get_handler, ota_ws_register_uri_handler,
}
use ota_ws_update.Server.Routes.{ota_ws_register_uri_handler-routes}
use ota_ws_update.Example.{
  wifi_event_ap_stadisconnected, ip_event_sta_got_ip, wifi_event_sta_disconnected,
  wifi_event_ap_staconnected, example_echo_ws_server, App, events,
}
use ota_ws_update.Example.{get_handler}
use ota_ws_update.Tests.Chip.{state_of}
use ota_ws_update.Example.Managed.{IsManaged, example_echo_ws_server-IsManaged}
use ota_ws_update.Example.Echo.{EchoRequest, EchoState}
use ota_ws_update.Tests.Frames.{text_request}

record Table : Type 0 where
  running : List ℕ
  served : List HttpdUri

abbrev tail : List ℕ → List ℕ
tail [] = []
tail (h ∷ hs) = hs

abbrev httpd : HttpdApi
httpd = record {
  Web = Table;
  httpd_start =
      λ d. let h = suc (length d.running) in ((esp_ok, h), record d { running = h ∷ d.running });
  httpd_stop = λ h d. (esp_ok, record d { running = tail d.running });
  httpd_register_uri_handler = λ h u d. (esp_ok, record d { served = u ∷ d.served });
  nvs_wifi_connect_register_uri_handler = λ h d. (esp_ok, d);
}

abbrev httpd_laws : HttpdLaws httpd
httpd_laws = record {
  servers = λ d. d.running;
  routes = λ h d. d.served;
  starts = λ h d d' e. ground arith;
  start_fails = λ err h d d' f e. ground arith;
  stops = λ h hs d d' r e. ground arith;
  stop_fails = λ err h d d' f e. ground arith;
  registers = λ h u d d' e. ground arith;
  register_fails = λ err h u d d' f e. ground arith;
  register_keeps = λ h u d. refl;
  wifi_keeps = λ h d. refl;
}

abbrev no_server : Table
no_server = record { running = []; served = [] }

ota_get_handler-page : ota_get_handler (codes "<html>") [] ≡ done esp_ok ([] ∷ codes "<html>" ∷ [])
unfolding ota_get_handler
ota_get_handler-page = refl

ota_ws_register_uri_handler-routes_example :
    Ends ⊥
      (λ ret d'.
        ((ret ≡ esp_ok)
          × (httpd_laws.routes 1 d'
              ≡ ws (codes "/ota/ws") ∷ gh (codes "/ota") ∷ httpd_laws.routes 1 no_server))
        ⊎ ((is_err ret ≡ true)
            × ((httpd_laws.routes 1 d' ≡ httpd_laws.routes 1 no_server)
                ⊎ (httpd_laws.routes 1 d' ≡ gh (codes "/ota") ∷ httpd_laws.routes 1 no_server))))
      (ota_ws_register_uri_handler httpd (codes "/ota") (codes "/ota/ws") 1 no_server)
ota_ws_register_uri_handler-routes_example =
    ota_ws_register_uri_handler-routes httpd httpd_laws (codes "/ota") (codes "/ota/ws") 1 no_server

abbrev at_start : App Table
at_start = record { server = 0; web = no_server }

-- A device disconnects in front of the first start, and while it goes on.
example_echo_ws_server-IsManaged_example :
    Ends ⊥
      (λ _. IsManaged httpd httpd_laws (codes "/ota") (codes "/ota/ws"))
      (example_echo_ws_server httpd
        (codes "/ota")
        (codes "/ota/ws")
        (wifi_event_sta_disconnected ∷ [])
        (wifi_event_ap_stadisconnected ∷ [])
        (ip_event_sta_got_ip ∷ wifi_event_sta_disconnected ∷ wifi_event_ap_staconnected ∷ [])
        at_start)
example_echo_ws_server-IsManaged_example =
    example_echo_ws_server-IsManaged httpd httpd_laws (codes "/ota") (codes "/ota/ws")
      (wifi_event_sta_disconnected ∷ []) (wifi_event_ap_stadisconnected ∷ [])
      (ip_event_sta_got_ip ∷ wifi_event_sta_disconnected ∷ wifi_event_ap_staconnected ∷ []) at_start
      refl refl (tt, tt) (tt, tt)

-- The station gets its address in front of the first start.
abbrev served_early : App Table
served_early =
    state_of at_start
      (events httpd (codes "/ota") (codes "/ota/ws") (ip_event_sta_got_ip ∷ []) at_start)

-- A text that arrives, and one for which the server reports an error.
abbrev two_frames : List EchoRequest
two_frames =
    record { request = text_request (codes "hello"); send_ret = esp_ok }
    ∷ record {
      request = record (text_request (codes "lost")) { payload_ret = esp_fail };
      send_ret = esp_ok;
    }
    ∷ []

abbrev quiet : EchoState
quiet = record { sent = []; live_bufs = 0 }

get_handler-page : get_handler (codes "<html>") [] ≡ done esp_ok ([] ∷ codes "<html>" ∷ [])
unfolding get_handler
get_handler-page = refl
