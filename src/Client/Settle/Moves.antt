-- ===== src/Client/Settle/Moves.antt =====
-- In every phase of an update there is one step, and it leads to a phase with less steps left.
use ota_ws_update.Base.{
  ℕ, ◌+◌, ◌*◌, ◌<◌, ◌≡◌, refl, sym, ◌∙◌, ◌⊎◌, inl, inr, List, [], ◌∷◌, Bytes, arith, length, take,
  take_all, drop,
}
use ota_ws_update.Backend.{Backend}
use ota_ws_update.Backend.Course.{Course, Over, Follows}
use ota_ws_update.Jsmn.{JsmnParse}
use ota_ws_update.Http.Session.{Session}
use ota_ws_update.Http.Message.{set_chunk_size_message, first_chunk_message, next_chunk_message}
use ota_ws_update.Http.Handler.{Request}
use ota_ws_update.Http.Upload.{chunk_request}
use ota_ws_update.Client.{JsonValue, number, Json, JsonLaws, Page, text_request}
use ota_ws_update.Client.Pieces.{parts}
use ota_ws_update.Client.World.{World}
use ota_ws_update.Client.Ready.{size_text}
use ota_ws_update.Client.Only.{Only, device-Only, client-Only, client-Only_two}
use ota_ws_update.Client.Replies.{receive-set_chunk_size, receive-first_chunk, receive-next_chunk}
use ota_ws_update.Client.Settle.{
  IsSendable, running, stopped, page_with, chunk_size, IsLeft, first-IsLeft, Phase, rank, told,
  asked_first, asked, sending, closing, settled, Closes, IsClosed, IsSettled,
}
use ota_ws_update.Client.Settle.Device.{Answer, announced-Answer}
use ota_ws_update.Client.Settle.Parts.{part-Answer}

module _ (be : Backend) (jsmn_parse : JsmnParse) (chunk_config : ℕ) (json : Json)
    (laws : JsonLaws json) (file : Bytes) (course : Course be.State) (follows : Follows be course)
    (sendable : IsSendable jsmn_parse chunk_config file) (bufs : ℕ) where
  abbrev pub At : World be.State → Type 0
  At = Phase be chunk_config json file course bufs

  abbrev pub rank_of : (W : World be.State) → At W → ℕ
  rank_of = rank be chunk_config json file course bufs

  abbrev Left : ℕ → Bytes → List Bytes → Type 0
  Left = IsLeft be chunk_config json file course bufs

  abbrev n_bytes : ℕ
  n_bytes = chunk_size be chunk_config json file course bufs

  abbrev page_at : JsonValue → ℕ → Page
  page_at = page_with be chunk_config json file course bufs

  abbrev run_at : ℕ → be.State → List Bytes → Session be.State
  run_at = running be chunk_config json file course bufs

  abbrev stopped_at : be.State → List Bytes → Session be.State
  stopped_at = stopped be chunk_config json file course bufs

  abbrev world : JsonValue → List Request → Session be.State → World be.State
  world n frames w = record { page = page_at n 1; frames = frames; session = w }

  -- One step, to a phase that has fewer than k steps left.
  pub record Moves (k : ℕ) (W : World be.State) : Type 0 where
    pub to : World be.State
    pub step : Only be jsmn_parse chunk_config json W to
    pub phase : At to
    pub fewer : rank_of to phase < k

  -- The device answers the frame on its way.
  device_moves :
      (k : ℕ) (n : JsonValue) (req : Request) (w : Session be.State)
      → w.sent ≡ []
      → Answer be jsmn_parse chunk_config json laws file course follows sendable bufs k n req w
      → Moves k (world n (req ∷ []) w)
  device_moves k n req w none_sent answer = record {
    to = world n [] answer.after;
    step =
        device-Only be jsmn_parse chunk_config json (page_at n 1) req w answer.after answer.ret
          none_sent answer.run;
    phase = answer.phase;
    fewer = answer.fewer;
  }

  told_moves :
      (n : JsonValue) (s : be.State)
      → course.Taken [] s
      → Moves
          (2 * length (parts (length file) n_bytes file) + 4)
          (world n [] (run_at 0 s (first_chunk_message 0 ∷ set_chunk_size_message n_bytes ∷ [])))
  told_moves n s p = record {
    to = world (number n_bytes) [] (run_at 0 s (first_chunk_message 0 ∷ []));
    step =
        client-Only_two be jsmn_parse chunk_config json (page_at n 1) (page_at (number n_bytes) 1)
          [] (set_chunk_size_message n_bytes) (first_chunk_message 0)
          (run_at 0 s (first_chunk_message 0 ∷ set_chunk_size_message n_bytes ∷ [])) refl
          (receive-set_chunk_size json laws (page_at n 1) n_bytes sendable.chunk_fits);
    phase = asked_first s p refl;
    fewer = omega arith;
  }

  first_moves :
      (s : be.State)
      → course.Taken [] s
      → Moves
          (2 * length (parts (length file) n_bytes file) + 3)
          (world (number n_bytes) [] (run_at 0 s (first_chunk_message 0 ∷ [])))
  first_moves s p = record {
    to = world (number n_bytes) (chunk_request (take n_bytes file) ∷ []) (run_at 0 s []);
    step =
        client-Only be jsmn_parse chunk_config json (page_at (number n_bytes) 1)
          (page_at (number n_bytes) 1) (chunk_request (take n_bytes file) ∷ [])
          (first_chunk_message 0) (run_at 0 s (first_chunk_message 0 ∷ [])) refl
          (receive-first_chunk json laws (page_at (number n_bytes) 1) 0 n_bytes file (omega arith)
            refl refl);
    phase =
        sending 0 (take n_bytes file) (parts (length file) n_bytes file) s
          (first-IsLeft be chunk_config json file course bufs sendable.some_chunk
            sendable.some_byte)
          p refl;
    fewer = omega arith;
  }

  -- The part that is asked for is the first of those left.
  asked_part :
      (start : ℕ) (c : Bytes) (cs : List Bytes)
      → Left start c cs
      → take n_bytes (drop start file) ≡ c
  asked_part start c [] l = take_all n_bytes (drop start file) l.split.2 ∙ sym l.split.0
  asked_part start c (d ∷ ds) l = sym l.split.0

  asked_moves :
      (start : ℕ) (c : Bytes) (cs : List Bytes) (s : be.State)
      → Left start c cs
      → course.Taken (take start file) s
      → Moves
          (2 * length cs + 3)
          (world (number n_bytes) [] (run_at start s (next_chunk_message start ∷ [])))
  asked_moves start c cs s l p = record {
    to = world (number n_bytes) (chunk_request c ∷ []) (run_at start s []);
    step =
        client-Only be jsmn_parse chunk_config json (page_at (number n_bytes) 1)
          (page_at (number n_bytes) 1) (chunk_request c ∷ []) (next_chunk_message start)
          (run_at start s (next_chunk_message start ∷ [])) refl
          (rw (asked_part start c cs l) at (
            receive-next_chunk json laws (page_at (number n_bytes) 1) start n_bytes file
              (omega (arith, l.inside, sendable.file_fits)) refl refl));
    phase = sending start c cs s l p refl;
    fewer = omega arith;
  }

  closing_moves :
      (n : JsonValue) (bytes : Bytes) (s : be.State)
      → Closes be chunk_config json file course bufs bytes
      → IsClosed be s
      → Over course file s
      → Moves 1 (world n [] (stopped_at s (bytes ∷ [])))
  closing_moves n bytes s closes closed p = record {
    to = record { page = page_at n 0; frames = []; session = stopped_at s [] };
    step =
        client-Only be jsmn_parse chunk_config json (page_at n 1) (page_at n 0) [] bytes
          (stopped_at s (bytes ∷ [])) refl (closes (page_at n 1));
    phase = settled n s closed p refl;
    fewer = omega arith;
  }

  stopped-IsSettled :
      (n : JsonValue) (s : be.State)
      → IsClosed be s
      → Over course file s
      → IsSettled be
          (Over course file)
          bufs
          (record { page = page_at n 0; frames = []; session = stopped_at s [] })
  stopped-IsSettled n s closed p = record {
    no_frames = refl;
    no_texts = refl;
    page_idle = refl;
    device_idle = refl;
    same_bufs = refl;
    closed = closed;
    kept = p;
  }

  -- Either everything has settled, or there is one step.
  pub Phase-cases :
      (W : World be.State) (p : At W)
      → IsSettled be (Over course file) bufs W ⊎ Moves (rank_of W p) W
  Phase-cases W (Phase.announced n w p same_bufs none_sent e) = inr (
      rw e (
        device_moves _ n (text_request (size_text (length file))) w none_sent (
          announced-Answer be jsmn_parse chunk_config json laws file course follows sendable bufs n
            w p same_bufs none_sent)))
  Phase-cases W (told n s p e) = inr (rw e (told_moves n s p))
  Phase-cases W (asked_first s p e) = inr (rw e (first_moves s p))
  Phase-cases W (asked start c cs s l p e) = inr (rw e (asked_moves start c cs s l p))
  Phase-cases W (sending start c cs s l p e) = inr (
      rw e (
        device_moves _ (number n_bytes) (chunk_request c) (run_at start s []) refl (
          part-Answer be jsmn_parse chunk_config json laws file course follows sendable bufs start c
            cs s l p)))
  Phase-cases W (closing n bytes s closes closed p e) =
      inr (rw e (closing_moves n bytes s closes closed p))
  Phase-cases W (settled n s closed p e) = inl (rw e (stopped-IsSettled n s closed p))
