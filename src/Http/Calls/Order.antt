-- ===== src/Http/Calls/Order.antt =====
-- The handler calls the functions of an update in order. This is shown of the protocol, and carried
-- over to `ota_ws_handler` of source/ota_ws_update_http.c.
use ota_ws_update.Base.{ℕ, ◌≡◌, refl, some, List, [], ◌∷◌}
use ota_ws_update.Esp.{Outcome, done, reboot, crash, pure, ◌>>=◌}
use ota_ws_update.Backend.{Backend, Ends, >>=-Ends}
use ota_ws_update.Jsmn.{JsmnParse}
use ota_ws_update.Http.Session.{Session, initial}
use ota_ws_update.Http.Handler.{Request, serve}
use ota_ws_update.Http.Protocol.{Event, step, run, events}
use ota_ws_update.Http.Protocol.View.{view, seen, transfer_of}
use ota_ws_update.Http.Protocol.Refines.{serve-seen}
use ota_ws_update.Http.Calls.{Logged, logged, stage_after, stage_of}
use ota_ws_update.Http.Calls.Steps.{stage, stage-transfer_of, P, InOrder, Good, step-InOrder}

module _ (be : Backend) (chunk_config : ℕ) where
  abbrev Ordered : P be chunk_config → Type 0
  Ordered = InOrder be chunk_config

  run-InOrder :
      (es : List Event) (p : P be chunk_config)
      → Ordered p
      → Good be chunk_config (run (logged be) chunk_config es p)
  unfolding run
  run-InOrder [] p h = h
  run-InOrder (e ∷ es) p h =
      >>=-Ends (Unit {0}) (λ _. Ordered) (λ _. Ordered) (step (logged be) chunk_config e p)
        (λ ret. run (logged be) chunk_config es >>= λ rets. pure (ret ∷ rets))
        (step-InOrder be chunk_config e p h)
        (λ ret p1 h1.
          >>=-Ends (Unit {0}) (λ _. Ordered) (λ _. Ordered) (run (logged be) chunk_config es p1)
            (λ rets. pure (ret ∷ rets)) (run-InOrder es p1 h1) (λ rets p2 h2. h2))

  seen-Ends :
      {A : Type 0} (o : Outcome (Session (Logged be.State)) A)
      → Good be chunk_config (seen o)
      → Ends (Unit {0}) (λ _ w. stage_after w.backend.calls ≡ some (stage_of w)) o
  unfolding seen
  seen-Ends (done a w) h = rw stage-transfer_of at h
  seen-Ends (reboot w) h = tt
  seen-Ends (crash f) h = tt

-- Whatever frames arrive, in any order and with any answers, the handler calls the flash writer's
-- functions of an update in order, as long as it returns: a chunk and the end only while an update is
-- on, that is behind a start that succeeded, with no end, abort or failure since; behind a failure
-- only an abort; and a start or an abort at any other time. In the end an update is on exactly if
-- `ota_started` says so, and then `ota_start_chunk` is the number of bytes, modulo 2 ^ 32, that the
-- flash writer has taken since it was started.
pub serve-calls :
    (be : Backend) (jsmn_parse : JsmnParse) (chunk_config : ℕ) (reqs : List Request) (b : be.State)
    → Ends
        (Unit {0})
        (λ _ w. stage_after w.backend.calls ≡ some (stage_of w))
        (serve
          (logged be)
          jsmn_parse
          chunk_config
          reqs
          (initial (record { inner = b; calls = [] })))
unfolding stage_after transfer_of stage
serve-calls be jsmn_parse chunk_config reqs b =
    let w : Session (Logged be.State) = initial (record { inner = b; calls = [] }) in
    seen-Ends be chunk_config (serve (logged be) jsmn_parse chunk_config reqs w) (
      rw (serve-seen (logged be) jsmn_parse chunk_config reqs w)
        (run-InOrder be chunk_config (events jsmn_parse reqs) (view w) refl))
