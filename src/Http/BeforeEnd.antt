-- ===== src/Http/BeforeEnd.antt =====
-- The handler with a flash writer that is safe up to the end of an update, on frames that do not end
-- one.
use ota_ws_update.Base.{ℕ, ◌≡◌, refl, sym, List, [], ◌∷◌}
use mathlib.Core.Path.{subst}
use ota_ws_update.Esp.{EspErr, done, reboot, crash, Outcome, M, bind, pure}
use ota_ws_update.Backend.{Backend, Keeps, Ends, >>=-Ends}
use ota_ws_update.Jsmn.{JsmnParse, JsmnLaws}
use ota_ws_update.Http.Session.{Session}
use ota_ws_update.Http.Handler.{Request, ota_ws_handler, serve}
use ota_ws_update.Http.Invariant.{IsKept}
use ota_ws_update.Http.Connection.{IsTame, AllReqs, tame_handler}
use ota_ws_update.Http.Ending.{without_end, GoesOn, handler-without_end}

-- A call and what is done with its result, which may rely on the call having returned it.
returned-Ends :
    {S A B : Type 0} (P : A → S → Type 0) (Q : B → S → Type 0) (o : Outcome S A) (k : A → M S B)
    → Ends ⊥ P o
    → ((a : A) (s : S) → o ≡ done a s → P a s → Ends ⊥ Q (k a s))
    → Ends ⊥ Q (bind o k)
returned-Ends P Q (done a s) k h next = next a s refl h
returned-Ends P Q (reboot s) k h next = tt
returned-Ends P Q (crash f) k h next = h

module _ (be : Backend) (jsmn_parse : JsmnParse) (chunk_config : ℕ) where
  -- No frame is one that ends an update, in the state in which it arrives.
  abbrev pub NoEnd : List Request → Session be.State → Type 0
  NoEnd [] w = Unit {0}
  NoEnd (req ∷ reqs) w =
      GoesOn req w
      × ((ret : EspErr) (w' : Session be.State)
          → ota_ws_handler be jsmn_parse chunk_config req w ≡ done ret w'
          → NoEnd reqs w')

  module _ (laws : JsmnLaws jsmn_parse) (P : be.State → Type 0)
      (keeps : Keeps ⊥ (without_end be) P) where
    handler-Ends :
        (req : Request) (bufs : ℕ) (w : Session be.State)
        → IsKept P bufs w
        → IsTame jsmn_parse req
        → GoesOn req w
        → Ends ⊥ (λ _. IsKept P bufs) (ota_ws_handler be jsmn_parse chunk_config req w)
    handler-Ends req bufs w k tame more =
        subst (Ends ⊥ (λ _. IsKept P bufs))
          (sym (handler-without_end be jsmn_parse chunk_config req w more))
          (tame_handler (without_end be) jsmn_parse chunk_config laws P keeps req bufs w k tame)

    pub serve-NoEnd :
        (reqs : List Request) (bufs : ℕ) (w : Session be.State)
        → IsKept P bufs w
        → AllReqs (IsTame jsmn_parse) reqs
        → NoEnd reqs w
        → Ends ⊥ (λ _. IsKept P bufs) (serve be jsmn_parse chunk_config reqs w)
    unfolding serve
    serve-NoEnd [] bufs w k tame more = k
    serve-NoEnd (req ∷ reqs) bufs w k tame more =
        returned-Ends (λ _. IsKept P bufs) (λ _. IsKept P bufs)
          (ota_ws_handler be jsmn_parse chunk_config req w)
          (λ ret w1. bind (serve be jsmn_parse chunk_config reqs w1) (λ rets. pure (ret ∷ rets)))
          (handler-Ends req bufs w k tame.0 more.0)
          (λ ret w1 run k1.
            >>=-Ends ⊥ (λ _. IsKept P bufs) (λ _. IsKept P bufs)
              (serve be jsmn_parse chunk_config reqs w1) (λ rets. pure (ret ∷ rets))
              (serve-NoEnd reqs bufs w1 k1 tame.1 (more.1 ret w1 run)) (λ rets w2 k2. k2))
