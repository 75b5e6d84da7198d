-- ===== src/Example/Managed.antt =====
-- The server that the example manages: at most one runs, and the variable says which.
use ota_ws_update.Base.{
  ℕ, ◌≡◌, ◌≢◌, refl, ◌⊎◌, inl, inr, List, [], ◌∷◌, Bytes, arith, Bool-cases, ◌∙◌,
}
use ota_ws_update.Esp.{is_err, done, reboot, crash, Outcome, bind}
use ota_ws_update.Backend.{Ends, Ends-mono, >>=-Ends}
use ota_ws_update.Server.{HttpdApi, HttpdLaws, HttpdUri, gh, ws, register_both}
use ota_ws_update.Example.{
  App, Event, ip_event_sta_got_ip, wifi_event_sta_disconnected, wifi_event_ap_staconnected,
  wifi_event_ap_stadisconnected, example_gh, example_ws, registered, start_webserver, assign,
  started, connect_handler, disconnect_handler, on_event, events, in_app, first_started, assigned,
  example_echo_ws_server,
}

module _ (api : HttpdApi) (laws : HttpdLaws api) (ota_default_uri ota_default_ws_uri : Bytes) where
  -- The variable is NULL and no server runs, or it is the one server that runs.
  abbrev pub IsManaged : App api.Web → Type 0
  IsManaged s =
      ((s.server ≡ 0) × (laws.servers s.web ≡ []))
      ⊎ ((s.server ≢ 0) × (laws.servers s.web ≡ s.server ∷ []))

  register_both-servers :
      (u v : HttpdUri) (h : ℕ) (d : api.Web)
      → Ends ⊥ (λ _ d'. laws.servers d' ≡ laws.servers d) (register_both api u v h d)
  unfolding register_both
  register_both-servers u v h d =
      let r1 = api.httpd_register_uri_handler h u d in
      ground (arith, laws.register_keeps h u d, laws.register_keeps h v r1.1)

  registered-servers :
      (h : ℕ) (d : api.Web)
      → Ends ⊥
          (λ h' d'. (h' ≡ h) × (laws.servers d' ≡ laws.servers d))
          (registered api ota_default_uri ota_default_ws_uri h d)
  unfolding registered
  registered-servers h d =
      >>=-Ends ⊥ (λ _ d'. laws.servers d' ≡ laws.servers d)
        (λ h' d'. (h' ≡ h) × (laws.servers d' ≡ laws.servers d))
        (register_both api example_gh example_ws h d) _
        (register_both-servers example_gh example_ws h d)
        (λ ret d1 e.
          let d2 = (api.nvs_wifi_connect_register_uri_handler h d1).1 in
          >>=-Ends ⊥ (λ _ d'. laws.servers d' ≡ laws.servers d2)
            (λ h' d'. (h' ≡ h) × (laws.servers d' ≡ laws.servers d))
            (register_both api (gh ota_default_uri) (ws ota_default_ws_uri) h d2) _
            (register_both-servers (gh ota_default_uri) (ws ota_default_ws_uri) h d2)
            (λ _ d3 e3. (refl, e3 ∙ (laws.wifi_keeps h d1 ∙ e))))

  -- What `start_webserver` returns: NULL, or a server that runs now as well.
  unfoldable pub NewServer : api.Web → ℕ → api.Web → Type 0
  NewServer d h d' =
      ((h ≡ 0) × (laws.servers d' ≡ laws.servers d))
      ⊎ ((h ≢ 0) × (laws.servers d' ≡ h ∷ laws.servers d))

  pub start_webserver-NewServer :
      (d : api.Web)
      → Ends ⊥ (NewServer d) (start_webserver api ota_default_uri ota_default_ws_uri d)
  unfolding start_webserver NewServer
  start_webserver-NewServer d =
      let r = api.httpd_start d in
      elim (Bool-cases (is_err r.0.0)) [
        | inl failed ↦ rw failed (inl (refl, laws.start_fails r.0.0 r.0.1 d r.1 failed refl))
        | inr good ↦ rw good (
            Ends-mono ⊥ (λ h' d'. (h' ≡ r.0.1) × (laws.servers d' ≡ laws.servers r.1)) (NewServer d)
              (registered api ota_default_uri ota_default_ws_uri r.0.1 r.1)
              (registered-servers r.0.1 r.1)
              (λ h' d' e. inr (ground (arith, e, good, laws.starts r.0.1 d r.1))))
      ]

  -- Where none ran before.
  Started : ℕ → api.Web → Type 0
  Started h d = IsManaged (record { server = h; web = d })

  start_webserver-Started :
      (d : api.Web)
      → laws.servers d ≡ []
      → Ends ⊥ Started (start_webserver api ota_default_uri ota_default_ws_uri d)
  unfolding NewServer Started
  start_webserver-Started d none_runs =
      Ends-mono ⊥ (NewServer d) Started (start_webserver api ota_default_uri ota_default_ws_uri d)
        (start_webserver-NewServer d) (λ h d' new. rw none_runs at new)

  assign-Ends :
      (s : App api.Web) (o : Outcome api.Web ℕ)
      → Ends ⊥ Started o
      → Ends ⊥ (λ _. IsManaged) (assign api ota_default_uri ota_default_ws_uri s o)
  unfolding assign Started
  assign-Ends s (done h d) m = m
  assign-Ends s (reboot d) m = tt
  assign-Ends s (crash f) m = m

  started-IsManaged :
      (s : App api.Web)
      → laws.servers s.web ≡ []
      → Ends ⊥ (λ _. IsManaged) (started api ota_default_uri ota_default_ws_uri s)
  unfolding started
  started-IsManaged s none_runs =
      assign-Ends s (start_webserver api ota_default_uri ota_default_ws_uri s.web)
        (start_webserver-Started s.web none_runs)

  connect-IsManaged :
      (s : App api.Web)
      → IsManaged s
      → Ends ⊥ (λ _. IsManaged) (connect_handler api ota_default_uri ota_default_ws_uri s)
  unfolding connect_handler
  connect-IsManaged s m = ground (arith, started-IsManaged s)

  disconnect-IsManaged :
      (s : App api.Web)
      → IsManaged s
      → Ends ⊥ (λ _. IsManaged) (disconnect_handler api ota_default_uri ota_default_ws_uri s)
  unfolding disconnect_handler
  disconnect-IsManaged s m =
      let r = api.httpd_stop s.server s.web in
      ground (arith, laws.stops s.server [] s.web r.1, laws.stop_fails r.0 s.server s.web r.1)

  on_event-IsManaged :
      (e : Event) (s : App api.Web)
      → IsManaged s
      → Ends ⊥ (λ _. IsManaged) (on_event api ota_default_uri ota_default_ws_uri e s)
  unfolding on_event
  on_event-IsManaged ip_event_sta_got_ip s m = connect-IsManaged s m
  on_event-IsManaged wifi_event_sta_disconnected s m = disconnect-IsManaged s m
  on_event-IsManaged wifi_event_ap_staconnected s m = connect-IsManaged s m
  on_event-IsManaged wifi_event_ap_stadisconnected s m = disconnect-IsManaged s m

  pub events-IsManaged :
      (es : List Event) (s : App api.Web)
      → IsManaged s
      → Ends ⊥ (λ _. IsManaged) (events api ota_default_uri ota_default_ws_uri es s)
  unfolding events
  events-IsManaged [] s m = m
  events-IsManaged (e ∷ es) s m =
      >>=-Ends ⊥ (λ _. IsManaged) (λ _. IsManaged)
        (on_event api ota_default_uri ota_default_ws_uri e s) _ (on_event-IsManaged e s m)
        (λ _ s1 m1. events-IsManaged es s1 m1)

  -- A device that disconnects.
  abbrev pub Disconnects : Event → Type 0
  Disconnects ip_event_sta_got_ip = ⊥
  Disconnects wifi_event_sta_disconnected = Unit
  Disconnects wifi_event_ap_staconnected = ⊥
  Disconnects wifi_event_ap_stadisconnected = Unit

  abbrev pub AllDisconnect : List Event → Type 0
  AllDisconnect [] = Unit
  AllDisconnect (e ∷ es) = Disconnects e × AllDisconnect es

  -- It changes nothing as long as the variable is NULL.
  event-idle :
      (e : Event) (s : App api.Web)
      → Disconnects e
      → s.server ≡ 0
      → on_event api ota_default_uri ota_default_ws_uri e s ≡ done tt s
  unfolding on_event disconnect_handler
  event-idle ip_event_sta_got_ip s h null = absurd h
  event-idle wifi_event_sta_disconnected s h null = rw null refl
  event-idle wifi_event_ap_staconnected s h null = absurd h
  event-idle wifi_event_ap_stadisconnected s h null = rw null refl

  pub events-idle :
      (es : List Event) (s : App api.Web)
      → AllDisconnect es
      → s.server ≡ 0
      → events api ota_default_uri ota_default_ws_uri es s ≡ done tt s
  unfolding events
  events-idle [] s h null = refl
  events-idle (e ∷ es) s h null = rw (event-idle e s h.0 null) (events-idle es s h.1 null)

  -- The first start, without the events in front of it.
  abbrev ThenManaged : Outcome (App api.Web) (Unit {0}) → Type 0
  ThenManaged = Ends ⊥ (λ _. IsManaged)

  first_start-IsManaged :
      (during later : List Event) (s : App api.Web) (o : Outcome api.Web ℕ)
      → AllDisconnect during
      → s.server ≡ 0
      → Ends ⊥ Started o
      → ThenManaged (
          bind
            (in_app api ota_default_uri ota_default_ws_uri s o)
            (assigned api ota_default_uri ota_default_ws_uri during later))
  unfolding in_app assigned Started
  first_start-IsManaged during later s (done h d) idle null m =
      rw (events-idle during (record s { web = d }) idle null)
        (events-IsManaged later (record { server = h; web = d }) m)
  first_start-IsManaged during later s (reboot d) idle null m = tt
  first_start-IsManaged during later s (crash f) idle null m = m

  -- Where no server runs and the variable is NULL when the example starts, and where nothing connects
  -- between the registration of the handlers and the end of the first start, then after any
  -- sequence of later events the variable `server` is NULL and no server runs, or it is the one
  -- server that runs.
  pub example_echo_ws_server-IsManaged :
      (early during later : List Event) (s : App api.Web)
      → laws.servers s.web ≡ []
      → s.server ≡ 0
      → AllDisconnect early
      → AllDisconnect during
      → Ends ⊥
          (λ _. IsManaged)
          (example_echo_ws_server api ota_default_uri ota_default_ws_uri early during later s)
  unfolding example_echo_ws_server first_started
  example_echo_ws_server-IsManaged early during later s none_runs null before between =
      rw (events-idle early s before null) (
        first_start-IsManaged during later s
          (start_webserver api ota_default_uri ota_default_ws_uri s.web) between null
          (start_webserver-Started s.web none_runs))
