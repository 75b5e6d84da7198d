-- ===== src/Client/Safe.antt =====
-- The page never makes the device run into undefined behaviour.
use ota_ws_update.Base.{ℕ, ◌≡◌, refl, List, [], ◌∷◌, ◌++◌, Bytes}
use mathlib.Core.Path.{subst}
use ota_ws_update.Esp.{done, Outcome}
use ota_ws_update.Backend.{Backend, Ends, Ends-mono, Keeps}
use ota_ws_update.Jsmn.{JsmnParse, JsmnLaws}
use ota_ws_update.Http.Invariant.{IsConsistent, IsKept}
use ota_ws_update.Http.Handler.{Request, ota_ws_handler}
use ota_ws_update.Http.Connection.{IsTame, AllReqs, initial-IsKept, tame_handler}
use ota_ws_update.Client.{
  Json, JsonLaws, Page, start_cancel, verify_app, rollback, restart, receive_ws_data, read_ota_file,
}
use ota_ws_update.Client.World.{World, Step, device, client}
use ota_ws_update.Client.Acts.{
  Act, Acts, opened, steps, reads, clicks, verifies, rolls_back, restarts, fails, none_yet, more,
}
use ota_ws_update.Client.Sends.{
  Fits, Sends, started-Sends, receive_ws_data-Sends, verify_app-IsTame, rollback-IsTame,
  restart-IsTame,
}
use ota_ws_update.Client.Tame.{KnowsPage}

AllReqs-append :
    (P : Request → Type 0) (a b : List Request) → AllReqs P a → AllReqs P b → AllReqs P (a ++ b)
AllReqs-append P [] b ha hb = hb
AllReqs-append P (x ∷ a) b ha hb = (ha.0, AllReqs-append P a b ha.1 hb)

-- A call that returned kept what every call keeps.
Ends-done :
    {S A : Type 0} (P : A → S → Type 0) (o : Outcome S A) (a : A) (s : S)
    → Ends ⊥ P o
    → o ≡ done a s
    → P a s
Ends-done P o a s h e = subst (Ends ⊥ P) e h

module _ (jsmn_parse : JsmnParse) (knows : KnowsPage jsmn_parse) (json : Json)
    (json_laws : JsonLaws json) (be : Backend) (chunk_config : ℕ) (laws : JsmnLaws jsmn_parse)
    (P : be.State → Type 0) (keeps : Keeps ⊥ be P) where
  -- The device is as it is between frames, and what is on its way to it is tame.
  record IsQuiet (W : World be.State) : Type 0 where
    session_kept : IsKept P 0 W.session
    tame : AllReqs (IsTame jsmn_parse) W.frames
    file_fits : Fits W.page.ota_data

  opened-IsQuiet : (b : be.State) → P b → IsQuiet (opened b)
  opened-IsQuiet b p = record { session_kept = initial-IsKept P b p; tame = tt; file_fits = tt }

  Sends-IsQuiet :
      (W : World be.State) (page : Page) (frames : List Request)
      → IsQuiet W
      → Sends jsmn_parse knows json json_laws (page, frames) W.page.ota_data
      → IsQuiet (record W { page = page; frames = W.frames ++ frames })
  Sends-IsQuiet W page frames q (tame, same_file) = record {
    session_kept = q.session_kept;
    tame = AllReqs-append (IsTame jsmn_parse) W.frames frames q.tame tame;
    file_fits = rw same_file q.file_fits;
  }

  handled :
      (W : World be.State) (req : Request) (reqs : List Request)
      → IsQuiet W
      → W.frames ≡ req ∷ reqs
      → Ends ⊥ (λ _. IsKept P 0) (ota_ws_handler be jsmn_parse chunk_config req W.session)
  handled W req reqs q e =
      tame_handler be jsmn_parse chunk_config laws P keeps req 0 W.session q.session_kept
        (subst (AllReqs (IsTame jsmn_parse)) e q.tame).0

  delivered :
      (W : World be.State) (later : List Bytes)
      → IsQuiet W
      → IsQuiet (record W { session = record (W.session) { sent = later } })
  delivered W later q =
      let k = q.session_kept in
      let c = k.consistent in
      record {
        session_kept = record {
          consistent = record { flag = c.flag; idle = c.idle; running = c.running };
          same_bufs = k.same_bufs;
          kept = k.kept;
        };
        tame = q.tame;
        file_fits = q.file_fits;
      }

  Step-IsQuiet :
      (W V : World be.State) → IsQuiet W → Step be jsmn_parse chunk_config json W V → IsQuiet V
  Step-IsQuiet W V q (device req reqs ret w frames run e) = rw e (record {
    session_kept = Ends-done (λ _. IsKept P 0) _ ret w (handled W req reqs q frames) run;
    tame = (subst (AllReqs (IsTame jsmn_parse)) frames q.tame).1;
    file_fits = q.file_fits;
  })
  Step-IsQuiet W V q (client bytes later sent e) = rw e (
      Sends-IsQuiet (record W { session = record (W.session) { sent = later } })
        (receive_ws_data json bytes W.page).0 (receive_ws_data json bytes W.page).1
        (delivered W later q) (receive_ws_data-Sends jsmn_parse knows json json_laws bytes W.page))

  Act-IsQuiet :
      (W V : World be.State) → IsQuiet W → Act be jsmn_parse chunk_config json W V → IsQuiet V
  unfolding read_ota_file
  Act-IsQuiet W V q (steps s) = Step-IsQuiet W V q s
  Act-IsQuiet W V q (reads bytes fits e) =
      rw e (record { session_kept = q.session_kept; tame = q.tame; file_fits = fits })
  Act-IsQuiet W V q (clicks e) = rw e (
      Sends-IsQuiet W (start_cancel json W.page).0 (start_cancel json W.page).1 q
        (started-Sends jsmn_parse knows json json_laws W.page W.page.ota_data q.file_fits refl))
  Act-IsQuiet W V q (verifies e) = rw e (
      Sends-IsQuiet W W.page (verify_app json) q
        (verify_app-IsTame jsmn_parse knows json json_laws, refl))
  Act-IsQuiet W V q (rolls_back e) = rw e (
      Sends-IsQuiet W W.page (rollback json) q
        (rollback-IsTame jsmn_parse knows json json_laws, refl))
  Act-IsQuiet W V q (restarts e) = rw e (
      Sends-IsQuiet W W.page (restart json) q
        (restart-IsTame jsmn_parse knows json json_laws, refl))
  Act-IsQuiet W V q (fails req reqs len_ret payload_ret calloc_ok frames e) =
      let tame = subst (AllReqs (IsTame jsmn_parse)) frames q.tame in
      rw e
        (record { session_kept = q.session_kept; tame = (tame.0, tame.1); file_fits = q.file_fits })

  Acts-IsQuiet :
      (W V : World be.State) → IsQuiet W → Acts be jsmn_parse chunk_config json W V → IsQuiet V
  Acts-IsQuiet W V q none_yet = q
  Acts-IsQuiet W V q (more acts act) = Act-IsQuiet _ V (Acts-IsQuiet W _ q acts) act

  -- From the page as it is loaded and a device that has just started, with a tokenizer that does what
  -- jsmn documents and finds the tokens of what the page sends, and a flash writer that keeps an
  -- invariant and has no undefined behaviour: whatever the user clicks on and whenever, whatever the
  -- page and the device are told in between, and whatever calls of the server and of `calloc` fail,
  -- the handler has no undefined behaviour on the next frame of the page. Its counters are consistent
  -- behind it, every receive buffer is freed, and the flash writer's invariant holds.
  pub page_safe :
      (b : be.State) (W : World be.State) (req : Request) (reqs : List Request)
      → P b
      → Acts be jsmn_parse chunk_config json (opened b) W
      → W.frames ≡ req ∷ reqs
      → Ends ⊥
          (λ _ w. IsConsistent w × (w.live_bufs ≡ 0) × P w.backend)
          (ota_ws_handler be jsmn_parse chunk_config req W.session)
  page_safe b W req reqs p acts next =
      Ends-mono ⊥ (λ _. IsKept P 0) (λ _ w. IsConsistent w × (w.live_bufs ≡ 0) × P w.backend)
        (ota_ws_handler be jsmn_parse chunk_config req W.session)
        (handled W req reqs (Acts-IsQuiet (opened b) W (opened-IsQuiet b p) acts) next)
        (λ ret w k. (k.consistent, k.same_bufs, k.kept))
