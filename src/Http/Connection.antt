-- ===== src/Http/Connection.antt =====
-- What holds over all the frames of a connection, in any order and with any answers of the server.
use ota_ws_update.Base.{
  ℕ, zero, suc, ◌+◌, ◌<◌, ◌≡◌, refl, ◌⊎◌, inl, inr, true, false, Option, none, some, List, [], ◌∷◌,
  Bytes, arith, length, get_elem?, ◌==◌, take, drop,
}
use mathlib.Core.Path.{subst}
use ota_ws_update.Word.{int_ltb, sub32, u32_mod}
use ota_ws_update.Text.{c_string}
use ota_ws_update.Esp.{done, pure, bind}
use ota_ws_update.Backend.{Backend, Ends, Keeps, Keeps_trivial, >>=-Ends, Ends-mono}
use ota_ws_update.Jsmn.{JsmnParse, JsmnLaws, JsmnToken}
use ota_ws_update.Http.Session.{Session, initial}
use ota_ws_update.Http.Json.{json_to_str_parm, copy_token, num_tokens, parm_size}
use ota_ws_update.Http.Handler.{text, Request, ota_ws_handler, serve, filled}
use ota_ws_update.Http.Invariant.{IsConsistent, IsKept}
use ota_ws_update.Http.Invariant.Frames.{Parses, frame_buf, ota_ws_handler-Ends}

copy_token-Ends :
    {S : Type 0} (js : Bytes) (t : Option JsmnToken) (s : S)
    → Ends (Unit {0}) (λ _ s'. s' ≡ s) (copy_token js t s)
unfolding copy_token
copy_token-Ends js t s = ground arith

-- The parser leaves the program's state as it is.
json-Ends :
    {S : Type 0} (jsmn_parse : JsmnParse) (buf : Option Bytes) (s : S)
    → Ends (Unit {0}) (λ _ s'. s' ≡ s) (json_to_str_parm jsmn_parse buf s)
unfolding json_to_str_parm copy_token
json-Ends jsmn_parse none s = tt
json-Ends jsmn_parse (some buf) s = ground arith

-- A text that the parser takes apart with no undefined behaviour: the tokenizer refuses it, or finds
-- less than two tokens, three or five, each shorter than the buffers.
pub record IsReadable (jsmn_parse : JsmnParse) (js : Bytes) : Type 0 where
  pub fits_word : length js < u32_mod
  pub counted : let r = (jsmn_parse js num_tokens).r in (int_ltb r 2 ≡ true) ⊎ (r ≡ 3) ⊎ (r ≡ 5)
  pub short :
      (i : ℕ) (t : JsmnToken)
      → get_elem? (jsmn_parse js num_tokens).tokens i ≡ some t
      → t.end < t.start + parm_size

get_elem?-lt {ℓ} :
    {A : Type ℓ} (xs : List A) (i : ℕ) → i < length xs → (x : A) × (get_elem? xs i ≡ some x)
get_elem?-lt [] i h = absurd (omega arith)
get_elem?-lt (x ∷ xs) zero h = (x, refl)
get_elem?-lt (x ∷ xs) (suc i) h = get_elem?-lt xs i (omega arith)

module _ {S : Type 0} (jsmn_parse : JsmnParse) (laws : JsmnLaws jsmn_parse) where
  copy_token-IsReadable :
      (js : Bytes) (i : ℕ) (s : S)
      → IsReadable jsmn_parse js
      → i < length (jsmn_parse js num_tokens).tokens
      → (name : Bytes) × (copy_token js (get_elem? (jsmn_parse js num_tokens).tokens i) s
          ≡ done name s)
  unfolding copy_token sub32
  copy_token-IsReadable js i s readable h =
      let (t, found) = get_elem?-lt (jsmn_parse js num_tokens).tokens i h in
      let within = laws.inside js num_tokens i t found in
      let short = readable.short i t found in
      let word = readable.fits_word in
      rw found (c_string (take (sub32 t.end t.start) (drop t.start js)), ground arith)

  json-IsReadable :
      (buf : Bytes) (s : S)
      → IsReadable jsmn_parse (c_string buf)
      → Ends ⊥ (λ _ s'. s' ≡ s) (json_to_str_parm jsmn_parse (some buf) s)
  unfolding json_to_str_parm int_ltb
  json-IsReadable buf s readable =
      let js = c_string buf in
      let counts = laws.counts js num_tokens in
      elim readable.counted [
        | inl few ↦ rw few refl
        | inr (inl three) ↦
            let name = copy_token-IsReadable js 2 s readable (ground arith) in
            rw (three, name.1) refl
        | inr (inr five) ↦
            let name = copy_token-IsReadable js 2 s readable (ground arith) in
            let value = copy_token-IsReadable js 4 s readable (ground arith) in
            rw (five, name.1, value.1) refl
      ]

abbrev pub AllReqs : (Request → Type 0) → List Request → Type 0
AllReqs P [] = Unit
AllReqs P (req ∷ reqs) = P req × AllReqs P reqs

module _ (be : Backend) (jsmn_parse : JsmnParse) (chunk_config : ℕ) (X : Type 0)
    (P : be.State → Type 0) (keeps : Keeps X be P) where
  abbrev Parsed : Request → Type 0
  Parsed req = (s : Session be.State) → Parses X jsmn_parse req s

  serve-Ends :
      (reqs : List Request) (bufs : ℕ) (w : Session be.State)
      → IsKept P bufs w
      → AllReqs Parsed reqs
      → Ends X (λ _. IsKept P bufs) (serve be jsmn_parse chunk_config reqs w)
  unfolding serve
  serve-Ends [] bufs w k h = k
  serve-Ends (req ∷ reqs) bufs w k h =
      >>=-Ends X (λ _. IsKept P bufs) (λ _. IsKept P bufs)
        (ota_ws_handler be jsmn_parse chunk_config req w)
        (λ ret w1. bind (serve be jsmn_parse chunk_config reqs w1) (λ rets. pure (ret ∷ rets)))
        (subst (λ n. Ends X (λ _. IsKept P n) (ota_ws_handler be jsmn_parse chunk_config req w))
          k.same_bufs
          (ota_ws_handler-Ends be jsmn_parse chunk_config X P keeps req w k.kept k.consistent h.0))
        (λ ret w1 k1.
          >>=-Ends X (λ _. IsKept P bufs) (λ _. IsKept P bufs)
            (serve be jsmn_parse chunk_config reqs w1) (λ rets. pure (ret ∷ rets))
            (serve-Ends reqs bufs w1 k1 h.1) (λ rets w2 k2. k2))

pub initial-IsKept : {B : Type 0} (P : B → Type 0) (b : B) → P b → IsKept P 0 (initial b)
initial-IsKept P b p = record {
  consistent = record {
    flag = inl refl;
    idle = λ _. (refl, refl);
    running = λ e. absurd (omega arith);
  };
  same_bufs = refl;
  kept = p;
}

module _ (be : Backend) (jsmn_parse : JsmnParse) (chunk_config : ℕ) where
  all-Parsed :
      (reqs : List Request)
      → AllReqs (Parsed be jsmn_parse chunk_config (Unit {0}) (λ _. Unit) (Keeps_trivial be)) reqs
  all-Parsed [] = tt
  all-Parsed (req ∷ reqs) = (λ s _. json-Ends jsmn_parse (frame_buf req) s, all-Parsed reqs)

  -- Whatever frames arrive, in any order, and whatever the server, the allocator, the tokenizer and
  -- the flash writer answer: as long as the handler returns, its counters are consistent (zero
  -- while no update runs, the next chunk in front of the announced size while one runs), and every
  -- receive buffer that it has allocated is freed again.
  pub serve-IsConsistent :
      (reqs : List Request) (b : be.State)
      → Ends
          (Unit {0})
          (λ _ w. IsConsistent w × (w.live_bufs ≡ 0))
          (serve be jsmn_parse chunk_config reqs (initial b))
  serve-IsConsistent reqs b =
      Ends-mono (Unit {0}) (λ _. IsKept (λ _. Unit) 0) (λ _ w. IsConsistent w × (w.live_bufs ≡ 0))
        (serve be jsmn_parse chunk_config reqs (initial b))
        (serve-Ends be jsmn_parse chunk_config (Unit {0}) (λ _. Unit) (Keeps_trivial be) reqs 0
          (initial b) (initial-IsKept (λ _. Unit) b tt) (all-Parsed reqs))
        (λ rets w k. (k.consistent, k.same_bufs))

-- A text frame is not empty, and its text is one that the parser takes apart safely.
abbrev pub IsTame : JsmnParse → Request → Type 0
IsTame jsmn_parse req =
    req.frame_type ≡ text
    → ((req.len == 0) ≡ false) × IsReadable jsmn_parse (c_string (filled req.len req.payload))

module _ (be : Backend) (jsmn_parse : JsmnParse) (chunk_config : ℕ) (laws : JsmnLaws jsmn_parse)
    (P : be.State → Type 0) (keeps : Keeps ⊥ be P) where
  tame-Parsed :
      (reqs : List Request)
      → AllReqs (IsTame jsmn_parse) reqs
      → AllReqs (Parsed be jsmn_parse chunk_config ⊥ P keeps) reqs
  tame-Parsed [] h = tt
  tame-Parsed (req ∷ reqs) h = (
    λ s is_text.
        rw (h.0 is_text).0
          (json-IsReadable jsmn_parse laws (filled req.len req.payload) s (h.0 is_text).1),
    tame-Parsed reqs h.1,
  )

  -- One frame.
  pub tame_handler :
      (req : Request) (bufs : ℕ) (w : Session be.State)
      → IsKept P bufs w
      → IsTame jsmn_parse req
      → Ends ⊥ (λ _. IsKept P bufs) (ota_ws_handler be jsmn_parse chunk_config req w)
  tame_handler req bufs w k tame =
      subst (λ n. Ends ⊥ (λ _. IsKept P n) (ota_ws_handler be jsmn_parse chunk_config req w))
        k.same_bufs
        (ota_ws_handler-Ends be jsmn_parse chunk_config ⊥ P keeps req w k.kept k.consistent
          (tame-Parsed (req ∷ []) (tame, tt)).0)

  -- With a flash writer that keeps an invariant and has no undefined behaviour, and a tokenizer that
  -- does what jsmn documents, the handler has no undefined behaviour on any sequence of frames whose
  -- text frames are not empty and hold JSON that the tokenizer refuses or splits into at most one
  -- token, three or five, each shorter than 64 bytes; and the flash writer's invariant is kept.
  pub serve_safe :
      (reqs : List Request) (b : be.State)
      → P b
      → AllReqs (IsTame jsmn_parse) reqs
      → Ends ⊥ (λ _ w. P w.backend) (serve be jsmn_parse chunk_config reqs (initial b))
  serve_safe reqs b p tame =
      Ends-mono ⊥ (λ _. IsKept P 0) (λ _ w. P w.backend)
        (serve be jsmn_parse chunk_config reqs (initial b))
        (serve-Ends be jsmn_parse chunk_config ⊥ P keeps reqs 0 (initial b) (initial-IsKept P b p)
          (tame-Parsed reqs tame))
        (λ rets w k. k.kept)
