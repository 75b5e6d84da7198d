-- ===== src/Example/Main.antt =====
-- example_ota_ws/main/example_ota_ws_update.c: the network is set up, and the example server starts.
use ota_ws_update.Base.{arith, ℕ, ◌≡◌, List, [], ◌∷◌, Bytes, codes, if◌then◌else◌}
use ota_ws_update.Esp.{EspErr, is_err, Outcome, M, done, reboot, crash, ◌>>◌}
use ota_ws_update.Backend.{Ends, >>=-Ends}
use ota_ws_update.Server.{HttpdApi, HttpdLaws}
use ota_ws_update.Example.{App, Event, example_echo_ws_server}
use ota_ws_update.Example.Managed.{IsManaged, AllDisconnect, example_echo_ws_server-IsManaged}

-- The network: the components nvs_wifi_connect and mdns, and lwip's netbiosns. Only the result of
-- `mdns_service_add` is looked at.
pub record NetApi : Type 1 where
  pub Net : Type 0
  pub nvs_wifi_connect : Net → Net
  pub mdns_init : Net → Net
  pub mdns_hostname_set : Bytes → Net → Net
  pub mdns_instance_name_set : Bytes → Net → Net
  pub mdns_service_add : Bytes → Bytes → Bytes → ℕ → List (Bytes × Bytes) → Net → EspErr × Net
  pub netbiosns_init : Net → Net
  pub netbiosns_set_name : Bytes → Net → Net

-- The whole program's state.
pub record Machine (Net Web : Type 0) : Type 0 where
  pub net : Net
  pub app : App Web

abbrev host_name : Bytes
host_name = codes "esp-ota"

abbrev service_txt_data : List (Bytes × Bytes)
service_txt_data = (codes "board", codes "esp32") ∷ (codes "path", codes "/") ∷ []

module _ (napi : NetApi) (api : HttpdApi) (ota_default_uri ota_default_ws_uri : Bytes) where
  -- A call on the network alone.
  abbrev on_net : (napi.Net → napi.Net) → M (Machine napi.Net api.Web) (Unit {0})
  on_net f m = done tt (record m { net = f m.net })

  -- `ESP_ERROR_CHECK` restarts the chip on an error.
  unfoldable pub initialise_mdns : M (Machine napi.Net api.Web) (Unit {0})
  initialise_mdns = do
    on_net napi.mdns_init
    on_net (napi.mdns_hostname_set host_name)
    on_net (napi.mdns_instance_name_set (codes "esp home web server"))
    (λ m.
        let (err, n) =
          napi.mdns_service_add (codes "ESP32-WebServer") (codes "_http") (codes "_tcp") 80
            service_txt_data m.net in
        if is_err err then reboot (record m { net = n }) else done tt (record m { net = n }))
    on_net napi.netbiosns_init
    on_net (napi.netbiosns_set_name host_name)

  -- A call on the server alone.
  with_app :
      {A : Type 0}
      → Machine napi.Net api.Web
      → Outcome (App api.Web) A
      → Outcome (Machine napi.Net api.Web) A
  with_app m (done x s) = done x (record m { app = s })
  with_app m (reboot s) = reboot (record m { app = s })
  with_app m (crash f) = crash f

  -- `app_main`, and the events, as for `example_echo_ws_server`.
  unfoldable pub app_main :
      List Event → List Event → List Event → M (Machine napi.Net api.Web) (Unit {0})
  unfolding with_app initialise_mdns
  app_main early during later = do
    on_net napi.nvs_wifi_connect
    initialise_mdns
    (λ m.
        with_app m
          (example_echo_ws_server api ota_default_uri ota_default_ws_uri early during later m.app))

  module _ (laws : HttpdLaws api) where
    -- What holds of the whole program's state.
    abbrev IsServing : Machine napi.Net api.Web → Type 0
    IsServing m = IsManaged api laws ota_default_uri ota_default_ws_uri m.app

    with_app-Ends :
        (m : Machine napi.Net api.Web) (o : Outcome (App api.Web) (Unit {0}))
        → Ends ⊥ (λ _. IsManaged api laws ota_default_uri ota_default_ws_uri) o
        → Ends ⊥ (λ _. IsServing) (with_app m o)
    unfolding with_app
    with_app-Ends m (done x s) h = h
    with_app-Ends m (reboot s) h = tt
    with_app-Ends m (crash f) h = h

    initialise_mdns-Ends :
        (m : Machine napi.Net api.Web) → Ends ⊥ (λ _ m'. m'.app ≡ m.app) (initialise_mdns m)
    unfolding initialise_mdns
    initialise_mdns-Ends m = ground arith

    -- Where no web server runs when the program starts, and nothing connects until the first start of the
    -- server has ended, the program restarts the chip for want of a network service, or goes on, whatever
    -- events arrive later, with at most one web server, which the variable `server` tells.
    app_main-IsServing :
        (early during later : List Event) (m : Machine napi.Net api.Web)
        → laws.servers m.app.web ≡ []
        → m.app.server ≡ 0
        → AllDisconnect api laws ota_default_uri ota_default_ws_uri early
        → AllDisconnect api laws ota_default_uri ota_default_ws_uri during
        → Ends ⊥ (λ _. IsServing) (app_main early during later m)
    unfolding app_main
    app_main-IsServing early during later m none_runs null before between =
        let m1 = record m { net = napi.nvs_wifi_connect m.net } in
        >>=-Ends ⊥ (λ _ m'. m'.app ≡ m.app) (λ _. IsServing) (initialise_mdns m1) _
          (initialise_mdns-Ends m1)
          (λ _ m2 same.
            with_app-Ends m2
              (example_echo_ws_server api ota_default_uri ota_default_ws_uri early during later
                m2.app)
              (example_echo_ws_server-IsManaged api laws ota_default_uri ota_default_ws_uri early
                during later m2.app (rw same none_runs) (rw same null) before between))
