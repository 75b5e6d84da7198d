-- ===== src/Http/Session.antt =====
-- The static variables of the handler, its messages and `ota_error`.
use ota_ws_update.Base.{ℕ, ◌+◌, ◌-◌, List, [], ◌∷◌, Option, none, some, Bytes}
use ota_ws_update.Esp.{Outcome, done, reboot, crash, M, ◌>>◌, modify}
use ota_ws_update.Backend.{Backend}
use ota_ws_update.Http.Message.{error_message}

-- `ota_size`, `ota_start_chunk` and `ota_started` are patterns of `int`. `sent` holds the texts
-- handed to `httpd_ws_send_frame`, the last one first, and `live_bufs` counts the receive buffers
-- that are allocated and not freed.
pub record Session (B : Type 0) : Type 0 where
  pub ota_size : ℕ
  pub ota_start_chunk : ℕ
  pub ota_started : ℕ
  pub backend : B
  pub sent : List Bytes
  pub live_bufs : ℕ

module _ {B : Type 0} where
  -- A call of the flash writer: the session, with the state that the call leaves.
  abbrev pub with_backend : {A : Type 0} → Session B → Outcome B A → Outcome (Session B) A
  with_backend w (done a b) = done a (record w { backend = b })
  with_backend w (reboot b) = reboot (record w { backend = b })
  with_backend w (crash f) = crash f

  abbrev pub lift : {A : Type 0} → M B A → M (Session B) A
  lift m w = with_backend w (m w.backend)

  -- `send_json_string`; no caller looks at what `httpd_ws_send_frame` returns.
  unfoldable pub send_json_string : Bytes → M (Session B) (Unit {0})
  send_json_string str = modify λ w. record w { sent = str ∷ w.sent }

  unfoldable pub calloc_buf : M (Session B) (Unit {0})
  calloc_buf = modify λ w. record w { live_bufs = w.live_bufs + 1 }

  -- `free(buf)`, which does nothing for NULL
  unfoldable pub free_buf : Option Bytes → M (Session B) (Unit {0})
  free_buf none = modify λ w. w
  free_buf (some _) = modify λ w. record w { live_bufs = w.live_bufs - 1 }

-- The static variables as the program starts.
abbrev pub initial : {B : Type 0} → B → Session B
initial b = record {
  ota_size = 0;
  ota_start_chunk = 0;
  ota_started = 0;
  backend = b;
  sent = [];
  live_bufs = 0;
}

-- `ota_error`: abort the update and tell the client.
unfoldable pub ota_error : (be : Backend) → Bytes → Bytes → M (Session be.State) (Unit {0})
unfolding send_json_string
ota_error be code msg = do
  modify λ w. record w { ota_size = 0; ota_start_chunk = 0; ota_started = 0 }
  lift be.abort_ota_ws
  send_json_string (error_message code msg)
