-- ===== src/Client/Settle/Ends.antt =====
-- An update from the page comes to an end, whatever the flash writer answers.
use ota_ws_update.Base.{
  some, ℕ, zero, suc, ◌+◌, ◌*◌, ◌≤◌, ◌<◌, ◌≡◌, refl, sym, ◌∙◌, inl, inr, [], ◌∷◌, Bytes, arith,
  length,
}
use ota_ws_update.Backend.{Backend, Returns}
use ota_ws_update.Backend.Course.{Course, Over, Follows, steady, steady-Follows}
use ota_ws_update.Jsmn.{JsmnParse}
use ota_ws_update.Http.Session.{Session}
use ota_ws_update.Http.Handler.{ota_chunk_size}
use ota_ws_update.Client.{JsonValue, Json, JsonLaws, Page, text_request, start_cancel}
use ota_ws_update.Client.Pieces.{parts}
use ota_ws_update.Client.World.{World, Step, device, client, Run, here, next, Run-first}
use ota_ws_update.Client.Ready.{size_text}
use ota_ws_update.Client.Only.{snoc_none}
use ota_ws_update.Client.Complete.{start_cancel-size}
use ota_ws_update.Client.Settle.{IsSendable, IsSettled, Phase}
use ota_ws_update.Client.Settle.Moves.{At, rank_of, Phase-cases}

module _ (be : Backend) (jsmn_parse : JsmnParse) (chunk_config : ℕ) (json : Json)
    (laws : JsonLaws json) (file : Bytes) (course : Course be.State) (follows : Follows be course)
    (sendable : IsSendable jsmn_parse chunk_config file) (bufs : ℕ) where
  abbrev In : World be.State → Type 0
  In = At be jsmn_parse chunk_config json laws file course follows sendable bufs

  abbrev left : (W : World be.State) → In W → ℕ
  left = rank_of be jsmn_parse chunk_config json laws file course follows sendable bufs

  settled_stops :
      (W V : World be.State)
      → IsSettled be (Over course file) bufs W
      → Step be jsmn_parse chunk_config json W V
      → ⊥
  settled_stops W V h (device req reqs ret w frames run e) = let none_there = h.no_frames in cc
  settled_stops W V h (client bytes later sent e) = snoc_none bytes later (sym h.no_texts ∙ sent)

  same_phase :
      (V U : World be.State) (k : ℕ)
      → V ≡ U
      → (q : In U) → left U q < k
      → (q' : In V) × (left V q' < k)
  same_phase V U k e q h = rw e (q, h)

  Step-fewer :
      (W V : World be.State) (p : In W)
      → Step be jsmn_parse chunk_config json W V
      → (q : In V) × (left V q < left W p)
  Step-fewer W V p s =
      elim (Phase-cases be jsmn_parse chunk_config json laws file course follows sendable bufs W
        p) [
          | inl there ↦ absurd (settled_stops W V there s)
          | inr moves ↦
              same_phase V moves.to (left W p) (moves.step.only V s) moves.phase moves.fewer
        ]

  Run-fewer :
      (W V : World be.State) (k : ℕ) (p : In W)
      → Run be jsmn_parse chunk_config json W k V
      → (q : In V) × (left V q + k ≤ left W p)
  Run-fewer W V k p here = (p, omega arith)
  Run-fewer W V k p (next r s) =
      let (q, fewer) = Run-fewer W _ _ p r in
      let (q', fewer') = Step-fewer _ V q s in (q', omega arith)

  settles :
      (fuel : ℕ) (W : World be.State) (p : In W)
      → left W p ≤ fuel
      → (j : ℕ) × (U : World be.State) × Run be jsmn_parse chunk_config json W j U
        × (j ≤ left W p)
        × IsSettled be (Over course file) bufs U
  settles zero W p enough =
      elim (Phase-cases be jsmn_parse chunk_config json laws file course follows sendable bufs W
        p) [
          | inl there ↦ (0, W, here, omega arith, there)
          | inr moves ↦ absurd (omega (arith, moves.fewer))
        ]
  settles (suc fuel) W p enough =
      elim (Phase-cases be jsmn_parse chunk_config json laws file course follows sendable bufs W
        p) [
          | inl there ↦ (0, W, here, omega arith, there)
          | inr moves ↦
              let (j, U, run, short, there) =
                settles fuel moves.to moves.phase (omega (arith, moves.fewer)) in
              (
                suc j,
                U,
                Run-first be jsmn_parse chunk_config json moves.step.goes run,
                omega (arith, moves.fewer),
                there,
              )
        ]

  -- From the announcement on.
  announced-settles :
      (n : JsonValue) (k : ℕ) (w : Session be.State) (V : World be.State)
      → course.Before w.backend
      → w.live_bufs ≡ bufs
      → w.sent ≡ []
      → Run be jsmn_parse chunk_config json
          (record {
            page = record { ota_data = some file; ota_set_chunk_size = n; ota_started = 1 };
            frames = text_request (size_text (length file)) ∷ [];
            session = w;
          })
          k
          V
      → (j : ℕ) × (U : World be.State) × Run be jsmn_parse chunk_config json V j U
        × (k + j ≤ 2 * length (parts (length file) (ota_chunk_size chunk_config) file) + 5)
        × IsSettled be (Over course file) bufs U
  announced-settles n k w V kept same_bufs none_sent run =
      let W : World be.State = record {
        page = record { ota_data = some file; ota_set_chunk_size = n; ota_started = 1 };
        frames = text_request (size_text (length file)) ∷ [];
        session = w;
      } in
      let p : In W = Phase.announced n w kept same_bufs none_sent refl in
      let (q, fewer) = Run-fewer W V k p run in
      let (j, U, rest, short, there) = settles (left V q) V q (omega arith) in
      (j, U, rest, omega arith, there)

-- The same for a flash writer whose calls follow a course: at the end the course is over.
pub start_cancel-finishes :
    (be : Backend) (jsmn_parse : JsmnParse) (chunk_config : ℕ) (json : Json) (laws : JsonLaws json)
    (course : Course be.State) (follows : Follows be course) (page : Page) (file : Bytes)
    (w : Session be.State) (k : ℕ) (V : World be.State)
    → page.ota_data ≡ some file
    → page.ota_started ≡ 0
    → w.sent ≡ []
    → course.Before w.backend
    → IsSendable jsmn_parse chunk_config file
    → (let (clicked, frames) = start_cancel json page in
        Run be jsmn_parse chunk_config json
          (record { page = clicked; frames = frames; session = w })
          k
          V)
    → (j : ℕ) × (U : World be.State) × Run be jsmn_parse chunk_config json V j U
      × (k + j ≤ 2 * length (parts (length file) (ota_chunk_size chunk_config) file) + 5)
      × IsSettled be (Over course file) w.live_bufs U
start_cancel-finishes be jsmn_parse chunk_config json laws course follows page file w k V read idle
      none_sent kept sendable run =
    announced-settles be jsmn_parse chunk_config json laws file course follows sendable w.live_bufs
      page.ota_set_chunk_size k w V kept refl none_sent
      (rw
        (
          start_cancel-size json laws page file read idle sendable.some_byte sendable.file_fits,
          read,
        )
        at run)

steady-IsSettled :
    (be : Backend) (P : be.State → Type 0) (file : Bytes) (bufs : ℕ) (U : World be.State)
    → IsSettled be (Over (steady P) file) bufs U
    → IsSettled be P bufs U
steady-IsSettled be P file bufs U h = record {
  no_frames = h.no_frames;
  no_texts = h.no_texts;
  page_idle = h.page_idle;
  device_idle = h.device_idle;
  same_bufs = h.same_bufs;
  closed = h.closed;
  kept = elim h.kept [ inl whole ↦ whole | inr over ↦ over ];
}

-- A click on the button while no update runs, on a page that has a file. The device is in any state with
-- no text on its way to the page, chunk size and file are not empty and below 2 ^ 31, the tokenizer finds
-- the tokens of the announcement, and start, write, end and abort of the flash writer return, with
-- whatever code, from every state of which P holds, in such a state. Then no run of page and device
-- has more steps than five and two for each part behind the first; and wherever a run has got to, at
-- most the rest of these steps lead to a state with nothing on its way, where neither the page nor
-- the device is in an update, the receive buffers are those of before, and the flash writer is where
-- an end that succeeded or an abort has left it.
pub start_cancel-settles :
    (be : Backend) (jsmn_parse : JsmnParse) (chunk_config : ℕ) (json : Json) (laws : JsonLaws json)
    (P : be.State → Type 0) (returns : Returns be P) (page : Page) (file : Bytes)
    (w : Session be.State) (k : ℕ) (V : World be.State)
    → page.ota_data ≡ some file
    → page.ota_started ≡ 0
    → w.sent ≡ []
    → P w.backend
    → IsSendable jsmn_parse chunk_config file
    → (let (clicked, frames) = start_cancel json page in
        Run be jsmn_parse chunk_config json
          (record { page = clicked; frames = frames; session = w })
          k
          V)
    → (j : ℕ) × (U : World be.State) × Run be jsmn_parse chunk_config json V j U
      × (k + j ≤ 2 * length (parts (length file) (ota_chunk_size chunk_config) file) + 5)
      × IsSettled be P w.live_bufs U
start_cancel-settles be jsmn_parse chunk_config json laws P returns page file w k V read idle
      none_sent kept sendable run =
    let (j, U, rest, short, there) =
      start_cancel-finishes be jsmn_parse chunk_config json laws (steady P)
        (steady-Follows be P returns) page file w k V read idle none_sent kept sendable run in
    (j, U, rest, short, steady-IsSettled be P file w.live_bufs U there)
