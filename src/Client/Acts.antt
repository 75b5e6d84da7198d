-- ===== src/Client/Acts.antt =====
-- Page and device with a user who clicks on any button at any time, reads a file, and a network and an
-- allocator that fail.
use ota_ws_update.Base.{ℕ, ◌<◌, ◌≡◌, Bool, List, [], ◌∷◌, ◌++◌, Bytes, length, none}
use ota_ws_update.Word.{sign_bit}
use ota_ws_update.Esp.{EspErr}
use ota_ws_update.Backend.{Backend}
use ota_ws_update.Jsmn.{JsmnParse}
use ota_ws_update.Http.Session
use ota_ws_update.Http.Handler.{Request}
use ota_ws_update.Client.{
  Json, Page, number, read_ota_file, start_cancel, verify_app, rollback, restart,
}
use ota_ws_update.Client.World.{World, Step}

-- The page as it is loaded, and a device that has just started.
abbrev pub opened : {B : Type 0} → B → World B
opened b = record {
  page = record { ota_data = none; ota_set_chunk_size = number 0; ota_started = 0 };
  frames = [];
  session = Session.initial b;
}

-- The page sends these frames behind the others.
abbrev pub sends : {B : Type 0} → Page → List Request → World B → World B
sends page frames W = record W { page = page; frames = W.frames ++ frames }

module _ (be : Backend) (jsmn_parse : JsmnParse) (chunk_config : ℕ) (json : Json) where
  -- `fails`: the next frame is one for which a call of the server or of `calloc` is to fail.
  pub data Act (W W' : World be.State) : Type 0 where
    steps : Step be jsmn_parse chunk_config json W W' → Act W W'
    reads :
        (bytes : Bytes)
        → length bytes < sign_bit
        → W' ≡ record W { page = read_ota_file bytes W.page }
        → Act W W'
    clicks : (let (page, frames) = start_cancel json W.page in W' ≡ sends page frames W) → Act W W'
    verifies : W' ≡ sends W.page (verify_app json) W → Act W W'
    rolls_back : W' ≡ sends W.page (rollback json) W → Act W W'
    restarts : W' ≡ sends W.page (restart json) W → Act W W'
    fails :
        (req : Request) (reqs : List Request) (len_ret payload_ret : EspErr) (calloc_ok : Bool)
        → W.frames ≡ req ∷ reqs
        → W' ≡ record W {
          frames =
              record req { len_ret = len_ret; payload_ret = payload_ret; calloc_ok = calloc_ok }
              ∷ reqs;
        }
        → Act W W'

  pub data Acts (W : World be.State) : World be.State → Type 0 where
    none_yet : Acts W W
    more : {V U : World be.State} → Acts W V → Act V U → Acts W U
