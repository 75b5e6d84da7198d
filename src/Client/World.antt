-- ===== src/Client/World.antt =====
-- The page and the device, with the two directions of the web socket between them: each delivers in
-- order, and either side may take what has arrived whenever it does.
use ota_ws_update.Base.{ℕ, zero, suc, ◌≡◌, List, [], ◌∷◌, ◌++◌, Bytes}
use ota_ws_update.Esp.{EspErr, done}
use ota_ws_update.Backend.{Backend}
use ota_ws_update.Jsmn.{JsmnParse}
use ota_ws_update.Http.Session.{Session}
use ota_ws_update.Http.Handler.{Request, ota_ws_handler}
use ota_ws_update.Client.{Json, Page, receive_ws_data}

-- The frames on their way to the device, the next one first. The texts on their way to the page are the
-- session's `sent`, where the next one is the last.
pub record World (B : Type 0) : Type 0 where
  pub page : Page
  pub frames : List Request
  pub session : Session B

module _ (be : Backend) (jsmn_parse : JsmnParse) (chunk_config : ℕ) (json : Json) where
  -- `device`: the handler is called with the next frame, and returns. `client`: `onmessage` is called
  -- with the next text.
  pub data Step (W W' : World be.State) : Type 0 where
    device :
        (req : Request) (reqs : List Request) (ret : EspErr) (w : Session be.State)
        → W.frames ≡ req ∷ reqs
        → ota_ws_handler be jsmn_parse chunk_config req W.session ≡ done ret w
        → W' ≡ record W { frames = reqs; session = w }
        → Step W W'
    client :
        (bytes : Bytes) (later : List Bytes)
        → W.session.sent ≡ later ++ (bytes ∷ [])
        → W' ≡ (
            let (page, frames) = receive_ws_data json bytes W.page in
            record {
              page = page;
              frames = W.frames ++ frames;
              session = record (W.session) { sent = later };
            })
        → Step W W'

  -- A run of so many steps.
  pub data Run (W : World be.State) : ℕ → World be.State → Type 0 where
    here : Run W zero W
    next : {k : ℕ} {V U : World be.State} → Run W k V → Step V U → Run W (suc k) U

  pub Run-first :
      {W V : World be.State} {k : ℕ} {U : World be.State} → Step W V → Run V k U → Run W (suc k) U
  Run-first s here = next here s
  Run-first s (next r s') = next (Run-first s r) s'
