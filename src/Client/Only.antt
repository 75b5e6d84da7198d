-- ===== src/Client/Only.antt =====
-- In a state with one message on its way, or two for the page, there is only one step.
use ota_ws_update.Base.{ℕ, ◌≡◌, refl, sym, ◌∙◌, List, [], ◌∷◌, ◌++◌, Bytes, arith}
use ota_ws_update.Esp.{EspErr, done}
use ota_ws_update.Backend.{Backend}
use ota_ws_update.Jsmn.{JsmnParse}
use ota_ws_update.Http.Session.{Session}
use ota_ws_update.Http.Handler.{Request, ota_ws_handler}
use ota_ws_update.Client.{Json, Page, receive_ws_data}
use ota_ws_update.Client.World.{World, Step, device, client}

snoc_one : {A : Type 0} (x y : A) (xs : List A) → x ∷ [] ≡ xs ++ (y ∷ []) → (xs ≡ []) × (y ≡ x)
snoc_one x y [] e = ground arith
snoc_one x y (z ∷ []) e = cc
snoc_one x y (z ∷ u ∷ xs) e = cc

pub snoc_none : {A : Type 0} (y : A) (xs : List A) → [] ≡ xs ++ (y ∷ []) → ⊥
snoc_none y [] e = cc
snoc_none y (z ∷ xs) e = cc

snoc_two :
    {A : Type 0} (x x' y : A) (xs : List A)
    → x ∷ x' ∷ [] ≡ xs ++ (y ∷ [])
    → (xs ≡ x ∷ []) × (y ≡ x')
snoc_two x x' y [] e = cc
snoc_two x x' y (z ∷ xs) e = ground (arith, snoc_one x' y xs)

module _ (be : Backend) (jsmn_parse : JsmnParse) (chunk_config : ℕ) (json : Json) where
  -- From W there is a step to W', and to no other state.
  pub record Only (W W' : World be.State) : Type 0 where
    pub goes : Step be jsmn_parse chunk_config json W W'
    pub only : (V : World be.State) → Step be jsmn_parse chunk_config json W V → V ≡ W'

  device-Step :
      (page : Page) (req : Request) (w w' : Session be.State) (ret : EspErr)
      → w.sent ≡ []
      → ota_ws_handler be jsmn_parse chunk_config req w ≡ done ret w'
      → (V : World be.State)
      → Step be jsmn_parse chunk_config json
          (record { page = page; frames = req ∷ []; session = w })
          V
      → V ≡ record { page = page; frames = []; session = w' }
  device-Step page req w w' ret none_sent run V (device r rs ret' v frames run' e) = ground arith
  device-Step page req w w' ret none_sent run V (client bytes later sent e) =
      absurd (snoc_none bytes later (sym none_sent ∙ sent))

  pub device-Only :
      (page : Page) (req : Request) (w w' : Session be.State) (ret : EspErr)
      → w.sent ≡ []
      → ota_ws_handler be jsmn_parse chunk_config req w ≡ done ret w'
      → Only
          (record { page = page; frames = req ∷ []; session = w })
          (record { page = page; frames = []; session = w' })
  device-Only page req w w' ret none_sent run = record {
    goes = device req [] ret w' refl run refl;
    only = device-Step page req w w' ret none_sent run;
  }

  client-Step :
      (page page' : Page) (frames : List Request) (bytes : Bytes) (later : List Bytes)
      (w : Session be.State)
      → ((bytes' : Bytes) (later' : List Bytes)
          → w.sent ≡ later' ++ (bytes' ∷ [])
          → (later' ≡ later) × (bytes' ≡ bytes))
      → receive_ws_data json bytes page ≡ (page', frames)
      → (V : World be.State)
      → Step be jsmn_parse chunk_config json (record { page = page; frames = []; session = w }) V
      → V ≡ record { page = page'; frames = frames; session = record w { sent = later } }
  client-Step page page' frames bytes later w last gets V (device r rs ret' v none_there run' e) =
      cc
  client-Step page page' frames bytes later w last gets V (client bytes' later' sent e) =
      let (same_later, same_bytes) = last bytes' later' sent in ground arith

  pub client-Only :
      (page page' : Page) (frames : List Request) (bytes : Bytes) (w : Session be.State)
      → w.sent ≡ bytes ∷ []
      → receive_ws_data json bytes page ≡ (page', frames)
      → Only
          (record { page = page; frames = []; session = w })
          (record { page = page'; frames = frames; session = record w { sent = [] } })
  client-Only page page' frames bytes w one gets = record {
    goes = client bytes [] one (rw gets refl);
    only =
        client-Step page page' frames bytes [] w
          (λ bytes' later' e. snoc_one bytes bytes' later' (sym one ∙ e)) gets;
  }

  pub client-Only_two :
      (page page' : Page) (frames : List Request) (bytes then : Bytes) (w : Session be.State)
      → w.sent ≡ then ∷ bytes ∷ []
      → receive_ws_data json bytes page ≡ (page', frames)
      → Only
          (record { page = page; frames = []; session = w })
          (record { page = page'; frames = frames; session = record w { sent = then ∷ [] } })
  client-Only_two page page' frames bytes then w two gets = record {
    goes = client bytes (then ∷ []) two (rw gets refl);
    only =
        client-Step page page' frames bytes (then ∷ []) w
          (λ bytes' later' e. snoc_two then bytes bytes' later' (sym two ∙ e)) gets;
  }
