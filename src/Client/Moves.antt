-- ===== src/Client/Moves.antt =====
-- Every phase of an update from the page has one step, and it leads to the next phase.
use ota_ws_update.Base.{
  ℕ, ◌+◌, ◌*◌, ◌≡◌, refl, sym, ◌∙◌, ◌⊎◌, inl, inr, List, [], ◌∷◌, Bytes, arith, length, take,
  take_all, drop,
}
use ota_ws_update.Esp.{esp_ok}
use ota_ws_update.Backend.{Backend}
use ota_ws_update.Jsmn.{JsmnParse}
use ota_ws_update.Http.Session.{Session}
use ota_ws_update.Http.Message.{
  set_chunk_size_message, first_chunk_message, next_chunk_message, end_message,
}
use ota_ws_update.Http.Handler.{Request, ota_chunk_size}
use ota_ws_update.Http.Upload.{chunk_request}
use ota_ws_update.Http.Upload.Announce.{announced}
use ota_ws_update.Client.{JsonValue, number, Json, JsonLaws, Page, text_request}
use ota_ws_update.Client.Progress.{sent_part}
use ota_ws_update.Client.Pieces.{parts}
use ota_ws_update.Client.World.{World}
use ota_ws_update.Client.Ready.{IsReady, size_text, device-size}
use ota_ws_update.Client.Only.{Only, device-Only, client-Only, client-Only_two}
use ota_ws_update.Client.Phases.{
  running, ended_session, page_with, IsLeft, first-IsLeft, Phase, rank, told, asked_first, asked,
  sending, ended, complete,
}
use ota_ws_update.Client.Replies.{
  receive-set_chunk_size, receive-first_chunk, receive-next_chunk, receive-end,
}

module _ (be : Backend) (jsmn_parse : JsmnParse) (chunk_config : ℕ) (json : Json)
    (laws : JsonLaws json) (file : Bytes) (b b1 b2 : be.State) (bufs : ℕ)
    (ready : IsReady be jsmn_parse chunk_config file b b1 b2) where
  abbrev pub P : World be.State → Type 0
  P = Phase be jsmn_parse chunk_config json laws file b b1 b2 bufs ready

  abbrev pub rank_of : (W : World be.State) → P W → ℕ
  rank_of = rank be jsmn_parse chunk_config json laws file b b1 b2 bufs ready

  abbrev pub Left : ℕ → Bytes → List Bytes → be.State → Type 0
  Left = IsLeft be jsmn_parse chunk_config json laws file b b1 b2 bufs ready

  abbrev pub run_at : ℕ → be.State → List Bytes → Session be.State
  run_at = running be jsmn_parse chunk_config json laws file b b1 b2 bufs ready

  abbrev pub page_at : JsonValue → ℕ → Page
  page_at = page_with be jsmn_parse chunk_config json laws file b b1 b2 bufs ready

  abbrev pub n_bytes : ℕ
  n_bytes = ota_chunk_size chunk_config

  abbrev pub finished : World be.State
  finished = record {
    page = page_at (number n_bytes) 0;
    frames = [];
    session = ended_session be jsmn_parse chunk_config json laws file b b1 b2 bufs ready [];
  }

  -- One step, to a phase that has one step less left.
  pub record Moves (k : ℕ) (W : World be.State) : Type 0 where
    pub to : World be.State
    pub step : Only be jsmn_parse chunk_config json W to
    pub phase : P to
    pub fewer : k ≡ rank_of to phase + 1

  abbrev pub answered : Page → List Request → List Bytes → ℕ → be.State → World be.State
  answered page frames sent start s = record {
    page = page;
    frames = frames;
    session = run_at start s sent;
  }

  announced_moves :
      (n : JsonValue) (w : Session be.State)
      → w.backend ≡ b
      → w.live_bufs ≡ bufs
      → w.sent ≡ []
      → Moves (2 * length (parts (length file) n_bytes file) + 5) (record {
        page = page_at n 1;
        frames = text_request (size_text (length file)) ∷ [];
        session = w;
      })
  announced_moves n w same_backend same_bufs none_sent = record {
    to = record {
      page = page_at n 1;
      frames = [];
      session = announced chunk_config (length file) b1 w;
    };
    step =
        device-Only be jsmn_parse chunk_config json (page_at n 1)
          (text_request (size_text (length file))) w (announced chunk_config (length file) b1 w)
          esp_ok none_sent
          (device-size be jsmn_parse chunk_config file b b1 b2 ready w same_backend);
    phase = told n (rw (none_sent, same_bufs) refl);
    fewer = omega arith;
  }

  told_moves :
      (n : JsonValue)
      → Moves (2 * length (parts (length file) n_bytes file) + 4) (
          answered
            (page_at n 1)
            []
            (first_chunk_message 0 ∷ set_chunk_size_message n_bytes ∷ [])
            0
            b1)
  told_moves n = record {
    to = answered (page_at (number n_bytes) 1) [] (first_chunk_message 0 ∷ []) 0 b1;
    step =
        client-Only_two be jsmn_parse chunk_config json (page_at n 1) (page_at (number n_bytes) 1)
          [] (set_chunk_size_message n_bytes) (first_chunk_message 0)
          (run_at 0 b1 (first_chunk_message 0 ∷ set_chunk_size_message n_bytes ∷ [])) refl
          (receive-set_chunk_size json laws (page_at n 1) n_bytes ready.chunk_fits);
    phase = asked_first refl;
    fewer = omega arith;
  }

  first_moves :
      Moves
        (2 * length (parts (length file) n_bytes file) + 3)
        (answered (page_at (number n_bytes) 1) [] (first_chunk_message 0 ∷ []) 0 b1)
  first_moves = record {
    to = answered (page_at (number n_bytes) 1) (chunk_request (take n_bytes file) ∷ []) [] 0 b1;
    step =
        client-Only be jsmn_parse chunk_config json (page_at (number n_bytes) 1)
          (page_at (number n_bytes) 1) (chunk_request (take n_bytes file) ∷ [])
          (first_chunk_message 0) (run_at 0 b1 (first_chunk_message 0 ∷ [])) refl
          (receive-first_chunk json laws (page_at (number n_bytes) 1) 0 n_bytes file (omega arith)
            refl refl);
    phase =
        sending 0 (take n_bytes file) (parts (length file) n_bytes file) b1
          (first-IsLeft be jsmn_parse chunk_config json laws file b b1 b2 bufs ready) refl;
    fewer = omega arith;
  }

  -- The part that is asked for is the first of those left.
  asked_part :
      (start : ℕ) (c : Bytes) (cs : List Bytes) (s : be.State)
      → Left start c cs s
      → take n_bytes (drop start file) ≡ c
  asked_part start c [] s l = take_all n_bytes (drop start file) l.split.2 ∙ sym l.split.0
  asked_part start c (d ∷ ds) s l = sym l.split.0

  asked_moves :
      (start : ℕ) (c : Bytes) (cs : List Bytes) (s : be.State)
      → Left start c cs s
      → Moves
          (2 * length cs + 3)
          (answered (page_at (number n_bytes) 1) [] (next_chunk_message start ∷ []) start s)
  asked_moves start c cs s l = record {
    to = answered (page_at (number n_bytes) 1) (chunk_request c ∷ []) [] start s;
    step =
        client-Only be jsmn_parse chunk_config json (page_at (number n_bytes) 1)
          (page_at (number n_bytes) 1) (chunk_request c ∷ []) (next_chunk_message start)
          (run_at start s (next_chunk_message start ∷ [])) refl
          (rw (asked_part start c cs s l) at (
            receive-next_chunk json laws (page_at (number n_bytes) 1) start n_bytes file
              (omega (arith, l.inside, ready.file_fits)) refl refl));
    phase = sending start c cs s l refl;
    fewer = omega arith;
  }

  sending_moves :
      (start : ℕ) (c : Bytes) (cs : List Bytes) (s : be.State)
      → Left start c cs s
      → Moves
          (2 * length cs + 2)
          (answered (page_at (number n_bytes) 1) (chunk_request c ∷ []) [] start s)
  sending_moves start c cs s l =
      let (w, run, (phase, left)) =
        sent_part be jsmn_parse chunk_config json laws file b b1 b2 bufs ready start c cs s l in
      record {
        to = record { page = page_at (number n_bytes) 1; frames = []; session = w };
        step =
            device-Only be jsmn_parse chunk_config json (page_at (number n_bytes) 1)
              (chunk_request c) (run_at start s []) w esp_ok refl run;
        phase = phase;
        fewer = omega arith;
      }

  ended_moves : Moves 1 (record {
    page = page_at (number n_bytes) 1;
    frames = [];
    session =
        ended_session be jsmn_parse chunk_config json laws file b b1 b2 bufs ready
          (end_message ∷ []);
  })
  ended_moves = record {
    to = finished;
    step =
        client-Only be jsmn_parse chunk_config json (page_at (number n_bytes) 1)
          (page_at (number n_bytes) 0) [] end_message
          (ended_session be jsmn_parse chunk_config json laws file b b1 b2 bufs ready
            (end_message ∷ []))
          refl (receive-end json laws (page_at (number n_bytes) 1));
    phase = complete refl;
    fewer = refl;
  }

  -- Either the update is complete, or there is one step.
  pub Phase-cases :
      (W : World be.State) (p : P W) → ((W ≡ finished) × (rank_of W p ≡ 0)) ⊎ Moves (rank_of W p) W
  Phase-cases W (Phase.announced n w same_backend same_bufs none_sent e) =
      inr (rw e (announced_moves n w same_backend same_bufs none_sent))
  Phase-cases W (told n e) = inr (rw e (told_moves n))
  Phase-cases W (asked_first e) = inr (rw e first_moves)
  Phase-cases W (asked start c cs s l e) = inr (rw e (asked_moves start c cs s l))
  Phase-cases W (sending start c cs s l e) = inr (rw e (sending_moves start c cs s l))
  Phase-cases W (ended e) = inr (rw e ended_moves)
  Phase-cases W (complete e) = inl (e, refl)
