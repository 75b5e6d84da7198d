-- ===== src/Stack/Boot/Frames.antt =====
-- The frames of a connection with a flash writer, and the partition that the device boots from.
use ota_ws_update.Base.{ℕ, ◌≡◌, ◌⊎◌, inl, inr, List, [], ◌∷◌, ◌==◌, Bool-cases}
use ota_ws_update.Esp.{EspErr, Outcome, done, pure, ◌>>=◌}
use ota_ws_update.Backend.{Backend, Ends, >>=-Ends}
use ota_ws_update.Jsmn.{JsmnParse}
use ota_ws_update.Http.Session.{Session, initial}
use ota_ws_update.Http.Handler.{Request, ota_ws_handler, serve}
use ota_ws_update.Http.Protocol.{Event, step, run, event, events}
use ota_ws_update.Http.Protocol.View.{view, seen, transfer_of}
use ota_ws_update.Http.Protocol.Refines.{handler-seen, serve-seen}
use ota_ws_update.Http.Calls.{logged}
use ota_ws_update.Stack.Boot.{BootWriter, S, boots, IsWhole, Holding, Booted}
use ota_ws_update.Stack.Boot.Answers.{P, boots_of, Behind}
use ota_ws_update.Stack.Boot.Steps.{step-Good}

module _ (be : Backend) (writer : BootWriter be) (jsmn_parse : JsmnParse) (chunk_config : ℕ) where
  abbrev Q : Type 0
  Q = P be writer chunk_config

  abbrev Held : Q → Type 0
  Held p = Holding be writer p.transfer p.backend

  run-Held :
      (es : List Event) (p : Q)
      → Held p
      → Ends (Unit {0}) (λ _. Held) (run (logged be) chunk_config es p)
  unfolding run
  run-Held [] p h = h
  run-Held (e ∷ es) p h =
      >>=-Ends (Unit {0})
        (Behind be writer chunk_config p.transfer (boots_of be writer chunk_config p)) (λ _. Held)
        (step (logged be) chunk_config e p)
        (λ ret. run (logged be) chunk_config es >>= λ rets. pure (ret ∷ rets))
        (step-Good be writer chunk_config e p h)
        (λ ret p1 h1.
          >>=-Ends (Unit {0}) (λ _. Held) (λ _. Held) (run (logged be) chunk_config es p1)
            (λ rets. pure (ret ∷ rets)) (run-Held es p1 h1.0) (λ rets p2 h2. h2))

  -- What is known of a call's result, once it has returned.
  returned :
      {A : Type 0} (R : A → Q → Type 0) (o : Outcome (Session (S be writer)) A) (a : A)
      (w : Session (S be writer))
      → o ≡ done a w
      → Ends (Unit {0}) R (seen o)
      → R a (view w)
  unfolding seen
  returned R o a w e h = rw e at h

  Booted-transfer_of :
      (w w' : Session (S be writer))
      → Booted be writer (transfer_of w) (boots be writer w.backend) w'.backend
      → (boots be writer w'.backend ≡ boots be writer w.backend)
        ⊎ IsWhole be writer w.ota_size w'.backend
  unfolding transfer_of
  Booted-transfer_of w w' h = elim (Bool-cases (w.ota_started == 0)) [
    | inl idle ↦ inl (rw idle at h)
    | inr running ↦ rw running at h
  ]

  -- After any sequence of frames from the start of the program, a frame whose call of the handler
  -- returns leaves the partition to boot from as it was, or has ended an update with enough bytes.
  pub serve-boot :
      (reqs : List Request) (req : Request) (s : be.State) (rets : List EspErr)
      (w : Session (S be writer)) (ret : EspErr) (w' : Session (S be writer))
      → serve (logged be) jsmn_parse chunk_config reqs (initial (record { inner = s; calls = [] }))
        ≡ done rets w
      → ota_ws_handler (logged be) jsmn_parse chunk_config req w ≡ done ret w'
      → (boots be writer w'.backend ≡ boots be writer w.backend)
        ⊎ IsWhole be writer w.ota_size w'.backend
  unfolding transfer_of
  serve-boot reqs req s rets w ret w' served handled =
      let w0 : Session (S be writer) = initial (record { inner = s; calls = [] }) in
      let held : Held (view w) =
        returned (λ _. Held) (serve (logged be) jsmn_parse chunk_config reqs w0) rets w served
          (rw (serve-seen (logged be) jsmn_parse chunk_config reqs w0)
            (run-Held (events jsmn_parse reqs) (view w0) tt)) in
      let behind =
        returned (Behind be writer chunk_config (transfer_of w) (boots be writer w.backend))
          (ota_ws_handler (logged be) jsmn_parse chunk_config req w) ret w' handled
          (rw (handler-seen (logged be) jsmn_parse chunk_config req w)
            (step-Good be writer chunk_config (event jsmn_parse req) (view w) held)) in
      Booted-transfer_of w w' behind.1
