-- ===== src/Http/Protocol/View.antt =====
-- The static variables of source/ota_ws_update_http.c, seen as a state of the protocol.
use ota_ws_update.Base.{◌≡◌, refl, Bytes, ◌==◌, if◌then◌else◌}
use ota_ws_update.Esp.{EspErr, Outcome, done, reboot, crash, M, bind, pure, ◌>>◌, ◌>>=◌}
use ota_ws_update.Http.Session.{Session, with_backend, send_json_string}
use ota_ws_update.Http.Protocol.{Transfer, no_transfer, receiving, Peer, restarted, answered, say}

-- What the static variables mean.
unfoldable pub transfer_of : {B : Type 0} → Session B → Transfer
transfer_of w = if w.ota_started == 0 then no_transfer else receiving w.ota_size w.ota_start_chunk

abbrev pub view : {B : Type 0} → Session B → Peer B
view w = record { transfer = transfer_of w; backend = w.backend; sent = w.sent }

unfoldable pub seen : {B A : Type 0} → Outcome (Session B) A → Outcome (Peer B) A
unfolding restarted
seen (done a w) = done a (view w)
seen (reboot w) = reboot (restarted (view w))
seen (crash f) = crash f

module _ {B A : Type 0} where
  -- A call of the flash writer, and what is done with its answer.
  pub seen-call :
      (w : Session B) (p : Peer B) {C : Type 0} (o : Outcome B C) (k : C → M (Session B) A)
      (k' : C → M (Peer B) A)
      → w.sent ≡ p.sent
      → ((c : C) (b : B) → seen (k c (record w { backend = b })) ≡ k' c (record p { backend = b }))
      → seen (bind (with_backend w o) k) ≡ bind (answered p o) k'
  unfolding seen answered
  seen-call w p (done c b) k k' said h = h c b
  seen-call w p (reboot b) k k' said h = rw said refl
  seen-call w p (crash f) k k' said h = refl

  -- One step, and what follows it.
  pub seen-bind :
      {C : Type 0} (o : Outcome (Session B) C) (q : Outcome (Peer B) C) (k : C → M (Session B) A)
      (k' : C → M (Peer B) A)
      → seen o ≡ q
      → ((c : C) (w : Session B) → seen (k c w) ≡ k' c (view w))
      → seen (bind o k) ≡ bind q k'
  unfolding seen
  seen-bind (done c w) q k k' e h = rw⁻¹ e (h c w)
  seen-bind (reboot w) q k k' e h = rw⁻¹ e refl
  seen-bind (crash f) q k k' e h = rw⁻¹ e refl

module _ {B : Type 0} where
  abbrev pub stopped : Session B → Session B
  stopped w = record w { ota_size = 0; ota_start_chunk = 0; ota_started = 0 }

  -- The flash writer's answer to an abort does not matter.
  pub told :
      (str : Bytes) (ret : EspErr) (w : Session B) (o : Outcome B EspErr)
      → seen (bind (bind (with_backend (stopped w) o) (λ _. send_json_string str)) (λ _. pure ret))
        ≡ bind (answered (view (stopped w)) o) (λ _. say str >> pure ret)
  unfolding seen answered send_json_string say transfer_of
  told str ret w (done a b) = refl
  told str ret w (reboot b) = refl
  told str ret w (crash f) = refl

pub bind_assoc :
    {S A C D : Type 0} (o : Outcome S A) (f : A → M S C) (g : C → M S D)
    → bind (bind o f) g ≡ bind o (λ a. f a >>= g)
bind_assoc (done a s) f g = refl
bind_assoc (reboot s) f g = refl
bind_assoc (crash f) g h = refl

module _ {B : Type 0} where
  pub seen-lift :
      {A : Type 0} (w : Session B) (o : Outcome B A) → seen (with_backend w o) ≡ answered (view w) o
  unfolding seen answered transfer_of
  seen-lift w (done a b) = refl
  seen-lift w (reboot b) = refl
  seen-lift w (crash f) = refl
