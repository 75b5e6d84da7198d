-- ===== src/Client/Complete.antt =====
-- An update from the page completes.
use ota_ws_update.Base.{
  some, ℕ, zero, suc, ◌+◌, ◌*◌, ◌-◌, ◌<◌, ◌≤◌, ◌≡◌, refl, ◌⊎◌, inl, inr, [], ◌∷◌, Bytes, arith,
  length,
}
use mathlib.Core.Path.{subst}
use ota_ws_update.Word.{sign_bit}
use ota_ws_update.Backend.{Backend}
use ota_ws_update.Jsmn.{JsmnParse}
use ota_ws_update.Http.Keys
use ota_ws_update.Http.Session.{Session}
use ota_ws_update.Http.Handler.{ota_chunk_size}
use ota_ws_update.Client.{
  JsonValue, Json, JsonLaws, Page, number, text_request, start_cancel, unescaped,
}
use ota_ws_update.Client.Pieces.{parts}
use ota_ws_update.Client.World.{World, Step, device, client, Run, here, next, Run-first}
use ota_ws_update.Client.Ready.{IsReady, size_text}
use ota_ws_update.Client.Only.{snoc_none}
use ota_ws_update.Client.Phases.{Phase, rank}
use ota_ws_update.Client.Moves.{Moves, finished, Phase-cases}

module _ (be : Backend) (jsmn_parse : JsmnParse) (chunk_config : ℕ) (json : Json)
    (laws : JsonLaws json) (file : Bytes) (b b1 b2 : be.State) (bufs : ℕ)
    (ready : IsReady be jsmn_parse chunk_config file b b1 b2) where
  abbrev P : World be.State → Type 0
  P = Phase be jsmn_parse chunk_config json laws file b b1 b2 bufs ready

  abbrev rank_of : (W : World be.State) → P W → ℕ
  rank_of = rank be jsmn_parse chunk_config json laws file b b1 b2 bufs ready

  abbrev final : World be.State
  final = finished be jsmn_parse chunk_config json laws file b b1 b2 bufs ready

  abbrev cases :
      (W : World be.State) (p : P W)
      → ((W ≡ final) × (rank_of W p ≡ 0))
        ⊎ Moves be jsmn_parse chunk_config json laws file b b1 b2 bufs ready (rank_of W p) W
  cases = Phase-cases be jsmn_parse chunk_config json laws file b b1 b2 bufs ready

  -- Nothing is on its way any more.
  final_stops : (V : World be.State) → Step be jsmn_parse chunk_config json final V → ⊥
  final_stops V (device req reqs ret w frames run e) = cc
  final_stops V (client bytes later sent e) = snoc_none bytes later sent

  same_phase :
      (V U : World be.State) (k : ℕ)
      → V ≡ U
      → (q : P U) → k ≡ rank_of U q + 1
      → (q' : P V) × (k ≡ rank_of V q' + 1)
  same_phase V U k e q h = rw e (q, h)

  Step-Phase :
      (W V : World be.State) (p : P W)
      → Step be jsmn_parse chunk_config json W V
      → (q : P V) × (rank_of W p ≡ rank_of V q + 1)
  Step-Phase W V p s = elim (cases W p) [
    | inl (same, _) ↦
        absurd (final_stops V (subst (λ U. Step be jsmn_parse chunk_config json U V) same s))
    | inr moves ↦ same_phase V moves.to (rank_of W p) (moves.step.only V s) moves.phase moves.fewer
  ]

  Run-Phase :
      (W V : World be.State) (k : ℕ) (p : P W)
      → Run be jsmn_parse chunk_config json W k V
      → (q : P V) × (rank_of W p ≡ rank_of V q + k)
  Run-Phase W V k p here = (p, omega arith)
  Run-Phase W V k p (next r s) =
      let (q, left) = Run-Phase W _ _ p r in
      let (q', left') = Step-Phase _ V q s in (q', omega arith)

  completes :
      (k : ℕ) (W : World be.State) (p : P W)
      → rank_of W p ≡ k
      → Run be jsmn_parse chunk_config json W k final
  completes zero W p none_left = elim (cases W p) [
    | inl (there, _) ↦ rw there here
    | inr moves ↦ absurd (omega (arith, moves.fewer))
  ]
  completes (suc k) W p left = elim (cases W p) [
    | inl (_, none_left) ↦ absurd (omega arith)
    | inr moves ↦
        Run-first be jsmn_parse chunk_config json moves.step.goes
          (completes k moves.to moves.phase (omega (arith, moves.fewer)))
  ]

  -- From the announcement on.
  announced_completes :
      (n : JsonValue) (k : ℕ) (w : Session be.State) (V : World be.State)
      → w.backend ≡ b
      → w.live_bufs ≡ bufs
      → w.sent ≡ []
      → Run be jsmn_parse chunk_config json
          (record {
            page = record { ota_data = some file; ota_set_chunk_size = n; ota_started = 1 };
            frames = text_request (size_text (length file)) ∷ [];
            session = w;
          })
          k
          V
      → let steps = 2 * length (parts (length file) (ota_chunk_size chunk_config) file) + 5 in
        (k ≤ steps) × Run be jsmn_parse chunk_config json V (steps - k) final
  announced_completes n k w V same_backend same_bufs none_sent run =
      let W : World be.State = record {
        page = record { ota_data = some file; ota_set_chunk_size = n; ota_started = 1 };
        frames = text_request (size_text (length file)) ∷ [];
        session = w;
      } in
      let p : P W = Phase.announced n w same_backend same_bufs none_sent refl in
      let steps = 2 * length (parts (length file) (ota_chunk_size chunk_config) file) + 5 in
      let (q, left) = Run-Phase W V k p run in
      let rest : rank_of V q ≡ steps - k = omega (arith, left) in
      (omega (arith, left), rw rest at (completes (rank_of V q) V q refl))

-- What a click on the button sends while no update runs.
pub start_cancel-size :
    (json : Json) (laws : JsonLaws json) (page : Page) (file : Bytes)
    → page.ota_data ≡ some file
    → page.ota_started ≡ 0
    → 0 < length file
    → length file < sign_bit
    → start_cancel json page
      ≡ (record page { ota_started = 1 }, text_request (size_text (length file)) ∷ [])
unfolding start_cancel unescaped
start_cancel-size json laws page file read idle some_byte fits =
    rw (read, idle, laws.stringify_number Keys.ota_size_start (length file) refl fits)
      (ground arith)

-- A click on the button while no update runs, on a page that has a file. The device is in any state with
-- no text on its way to the page, chunk size and file are not empty and below 2 ^ 31, the tokenizer finds
-- the tokens of the announcement, and the flash writer takes the start, the file's parts of the
-- configured size, and the end. Then no run of page and device has more steps than five and two for
-- each part behind the first; and wherever a run has got to, the rest of these steps lead to the state
-- in which every frame and text is delivered, the flash writer is where those calls leave it, the
-- device's counters are zero, and the page shows no update.
pub start_cancel-completes :
    (be : Backend) (jsmn_parse : JsmnParse) (chunk_config : ℕ) (json : Json) (laws : JsonLaws json)
    (page : Page) (file : Bytes) (w : Session be.State) (b1 b2 : be.State) (k : ℕ)
    (V : World be.State)
    → page.ota_data ≡ some file
    → page.ota_started ≡ 0
    → w.sent ≡ []
    → IsReady be jsmn_parse chunk_config file w.backend b1 b2
    → (let (clicked, frames) = start_cancel json page in
        Run be jsmn_parse chunk_config json
          (record { page = clicked; frames = frames; session = w })
          k
          V)
    → let n = ota_chunk_size chunk_config in
      let steps = 2 * length (parts (length file) n file) + 5 in
      (k ≤ steps)
      × Run be jsmn_parse chunk_config json V (steps - k) (record {
        page = record page { ota_set_chunk_size = number n; ota_started = 0 };
        frames = [];
        session = record w {
          ota_size = 0;
          ota_start_chunk = 0;
          ota_started = 0;
          backend = b2;
          sent = [];
        };
      })
start_cancel-completes be jsmn_parse chunk_config json laws page file w b1 b2 k V read idle
      none_sent ready run =
    rw read (
      announced_completes be jsmn_parse chunk_config json laws file w.backend b1 b2 w.live_bufs
        ready page.ota_set_chunk_size k w V refl refl none_sent
        (rw (start_cancel-size json laws page file read idle ready.some_byte ready.file_fits, read)
          at run))
