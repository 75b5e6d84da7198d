-- ===== src/Example.antt =====
-- example_ota_ws/main/example_echo_ws_server.c and example_ota_ws_update.c: a program that uses the
-- component. The server's life is here, the handler of its web socket in Echo.
pub mod Managed
pub mod Unmanaged
pub mod Echo
pub mod Main
use ota_ws_update.Base.{ℕ, ◌==◌, Bool, true, false, List, [], ◌∷◌, Bytes, codes, if◌then◌else◌}
use ota_ws_update.Esp.{
  EspErr, esp_ok, is_err, M, Outcome, pure, done, reboot, crash, ◌>>=◌, ◌>>◌, modify, get,
}
use ota_ws_update.Server.{
  HttpdApi, HttpdUri, get_handler_name, echo_handler_name, call, register_both,
  ota_ws_register_uri_handler,
}

abbrev pub example_ws : HttpdUri
example_ws = record { uri = codes "/ws"; handler = echo_handler_name; is_websocket = true }

abbrev pub example_gh : HttpdUri
example_gh = record { uri = codes "/"; handler = get_handler_name; is_websocket = false }

-- `get_handler`: the example's page in one chunk, and the empty chunk that ends the response. The state
-- is the chunks sent, the last one first.
unfoldable pub get_handler : Bytes → M (List Bytes) EspErr
get_handler page = do modify λ chunks. page ∷ chunks; modify λ chunks. [] ∷ chunks; pure esp_ok

-- The static variable `server`, 0 for NULL, and the web servers.
pub record App (Web : Type 0) : Type 0 where
  pub server : ℕ
  pub web : Web

-- The events that the handlers are registered for.
pub data Event : Type 0 where
  ip_event_sta_got_ip wifi_event_sta_disconnected : Event
  wifi_event_ap_staconnected wifi_event_ap_stadisconnected : Event

module _ (api : HttpdApi) (ota_default_uri ota_default_ws_uri : Bytes) where
  unfoldable pub example_register_uri_handler : ℕ → M api.Web EspErr
  unfolding register_both
  example_register_uri_handler = register_both api example_gh example_ws

  -- The results of the registrations are not looked at.
  unfoldable pub registered : ℕ → M api.Web ℕ
  unfolding example_register_uri_handler ota_ws_register_uri_handler
  registered server = do
    example_register_uri_handler server
    call (api.nvs_wifi_connect_register_uri_handler server)
    ota_ws_register_uri_handler api ota_default_uri ota_default_ws_uri server
    pure server

  -- The handle of the server, 0 for NULL where it has not started.
  unfoldable pub start_webserver : M api.Web ℕ
  start_webserver = do
    (err, server) ← call api.httpd_start
    if is_err err then pure 0 else registered server

  unfoldable pub stop_webserver : ℕ → M api.Web EspErr
  stop_webserver server = call (api.httpd_stop server)

  -- `server = …`, for a call on the web servers.
  unfoldable pub assign : App api.Web → Outcome api.Web ℕ → Outcome (App api.Web) (Unit {0})
  assign s (done h d) = done tt (record { server = h; web = d })
  assign s (reboot d) = reboot (record s { web = d })
  assign s (crash f) = crash f

  unfoldable pub started : M (App api.Web) (Unit {0})
  unfolding assign
  started s = assign s (start_webserver s.web)

  unfoldable pub connect_handler : M (App api.Web) (Unit {0})
  connect_handler s = if s.server == 0 then started s else done tt s

  unfoldable pub disconnect_handler : M (App api.Web) (Unit {0})
  unfolding stop_webserver assign
  disconnect_handler s =
      if s.server == 0
      then done tt s
      else assign s
          ((stop_webserver s.server >>= λ err. pure (if is_err err then s.server else 0)) s.web)

  unfoldable pub on_event : Event → M (App api.Web) (Unit {0})
  on_event ip_event_sta_got_ip = connect_handler
  on_event wifi_event_sta_disconnected = disconnect_handler
  on_event wifi_event_ap_staconnected = connect_handler
  on_event wifi_event_ap_stadisconnected = disconnect_handler

  unfoldable pub events : List Event → M (App api.Web) (Unit {0})
  events [] = pure tt
  events (e ∷ es) = on_event e >> events es

  -- `start_webserver()` in `example_echo_ws_server`, whose handle is not in the variable yet.
  unfoldable pub in_app : App api.Web → Outcome api.Web ℕ → Outcome (App api.Web) ℕ
  in_app s (done h d) = done h (record s { web = d })
  in_app s (reboot d) = reboot (record s { web = d })
  in_app s (crash f) = crash f

  unfoldable pub first_started : M (App api.Web) ℕ
  unfolding in_app
  first_started s = in_app s (start_webserver s.web)

  -- `server = h`, with the events in front of it and behind it.
  unfoldable pub assigned : List Event → List Event → ℕ → M (App api.Web) (Unit {0})
  assigned during later h = do events during; modify λ s. record s { server = h }; events later

  -- `example_echo_ws_server`, and the events, which are handled from the registration of the handlers on:
  -- `early` in front of the first start, `during` while it returns and its handle is not yet in the
  -- variable, `later` behind that. Registering the handlers succeeds, or the program ends.
  unfoldable pub example_echo_ws_server :
      List Event → List Event → List Event → M (App api.Web) (Unit {0})
  example_echo_ws_server early during later = do
    events early
    first_started >>= assigned during later
