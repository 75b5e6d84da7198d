-- ===== src/Client/Settle/Parts.antt =====
-- What the device makes of a part, whatever the flash writer answers.
use ota_ws_update.Base.{
  ℕ, ◌+◌, ◌*◌, ◌<◌, ◌≡◌, refl, true, false, some, List, [], ◌∷◌, ◌++◌, Bytes, arith, codes, length,
  length-take, take, drop, ◌==◌, Bool-cases, inl, inr,
}
use ota_ws_update.Word.{u32_mod}
use ota_ws_update.Esp.{EspErr, esp_ok, is_err, is_err-esp_ok, done}
use ota_ws_update.Backend.{Backend}
use ota_ws_update.Backend.Course.{Course, Follows}
use ota_ws_update.Jsmn.{JsmnParse}
use ota_ws_update.Http.Message.{next_chunk_message, end_message}
use ota_ws_update.Http.Session.{Session}
use ota_ws_update.Http.Handler.{Request}
use ota_ws_update.Http.Upload.{chunk_request}
use ota_ws_update.Http.Upload.Refused.{handler-refused_end}
use ota_ws_update.Http.Upload.Steps.{
  handler-next_chunk, handler-last_chunk, handler-failed_chunk, failed_state,
}
use ota_ws_update.Client.{JsonValue, number, Json, JsonLaws, unescaped}
use ota_ws_update.Client.Pieces.{drop-drop, length-drop, take-drop, take_more}
use ota_ws_update.Client.Replies.{receive-error, receive-end}
use ota_ws_update.Client.Settle.{IsSendable, running, stopped, chunk_size, IsLeft, asked, closing}
use ota_ws_update.Client.Settle.Device.{Answer}

module _ (be : Backend) (jsmn_parse : JsmnParse) (chunk_config : ℕ) (json : Json)
    (laws : JsonLaws json) (file : Bytes) (course : Course be.State) (follows : Follows be course)
    (sendable : IsSendable jsmn_parse chunk_config file) (bufs : ℕ) where
  abbrev PartAnswer : ℕ → JsonValue → Request → Session be.State → Type 0
  PartAnswer = Answer be jsmn_parse chunk_config json laws file course follows sendable bufs

  abbrev failed : (msg : Bytes) → be.State → Session be.State → Session be.State
  failed = failed_state be jsmn_parse chunk_config

  abbrev size_of_part : ℕ
  size_of_part = chunk_size be chunk_config json file course bufs

  abbrev run_at : ℕ → be.State → Session be.State
  run_at start s = running be chunk_config json file course bufs start s []

  abbrev Left : ℕ → Bytes → List Bytes → Type 0
  Left = IsLeft be chunk_config json file course bufs

  -- A part is not empty; the last one is all that is left, and behind any other there is more.
  last_length :
      (start : ℕ) (c : Bytes)
      → Left start c []
      → (start + length c ≡ length file) × ((length c == 0) ≡ false)
  last_length start c l = ground (arith, l.split, length-drop start file, l.inside)

  next_length :
      (start : ℕ) (c d : Bytes) (ds : List Bytes)
      → Left start c (d ∷ ds)
      → (length c ≡ size_of_part) × (start + size_of_part < length file) × ((length c == 0) ≡ false)
  next_length start c d ds l = ground (
    arith,
    l.split,
    length-drop start file,
    length-take size_of_part (drop start file),
    l.inside,
    sendable.some_chunk,
  )

  part-not_empty :
      (start : ℕ) (c : Bytes) (cs : List Bytes) → Left start c cs → (length c == 0) ≡ false
  part-not_empty start c [] l = (last_length start c l).1
  part-not_empty start c (d ∷ ds) l = (next_length start c d ds l).2

  -- The state in which the flash writer refuses a part.
  refused_part :
      (n : JsonValue) (k start : ℕ) (c : Bytes) (s s1 : be.State) (ret : EspErr)
      → 1 < k
      → (length c == 0) ≡ false
      → is_err ret ≡ true
      → be.write_ota_ws (length c) (some (c ++ (0 ∷ []))) s ≡ done ret s1
      → course.Failed s1
      → PartAnswer k n (chunk_request c) (run_at start s)
  unfolding unescaped
  refused_part n k start c s s1 ret more some_byte bad wrote p1 =
      let (aborted, s2, aborts, p2) = follows.abort_follows s1 p1 in
      record {
        ret = ret;
        after = failed (codes "Error write ota") s2 (run_at start s);
        run =
            handler-failed_chunk be jsmn_parse chunk_config c (run_at start s) s1 s2 ret aborted
              some_byte refl bad wrote aborts;
        phase =
            closing n _ s2
              (λ page. receive-error json laws page (codes "Error write ota") (omega arith) refl)
              (inr (s1, aborted, aborts)) (inr p2) refl;
        fewer = more;
      }

  -- The last part has been written, and the flash writer is told to end the update.
  last_part :
      (n : JsonValue) (start : ℕ) (c : Bytes) (s s1 : be.State)
      → Left start c []
      → be.write_ota_ws (length c) (some (c ++ (0 ∷ []))) s ≡ done esp_ok s1
      → course.Taken file s1
      → PartAnswer 2 n (chunk_request c) (run_at start s)
  unfolding unescaped
  last_part n start c s s1 l wrote p1 =
      let (last, some_byte) = last_length start c l in
      let word : length file < u32_mod = omega (arith, sendable.file_fits) in
      let (ret, s2, ends, whole, refused) = follows.end_follows file s1 p1 in
      elim (Bool-cases (is_err ret)) [
        | inl bad ↦
            let (aborted, s3, aborts, over) = follows.abort_follows s2 (refused bad) in
            record {
              ret = ret;
              after = failed (codes "Error end ota") s3 (run_at start s);
              run =
                  handler-refused_end be jsmn_parse chunk_config c (run_at start s) s1 s2 s3 ret
                    aborted some_byte refl last word wrote bad ends aborts;
              phase =
                  closing n _ s3
                    (λ page.
                      receive-error json laws page (codes "Error end ota") (omega arith) refl)
                    (inr (s2, aborted, aborts)) (inr over) refl;
              fewer = omega arith;
            }
        | inr good ↦ record {
          ret = esp_ok;
          after = stopped be chunk_config json file course bufs s2 (end_message ∷ []);
          run =
              handler-last_chunk be jsmn_parse chunk_config c (run_at start s) s1 s2 some_byte refl
                last word wrote (rw (is_err-esp_ok ret good) at ends);
          phase =
              closing n _ s2 (λ page. receive-end json laws page)
                (inl (s1, rw (is_err-esp_ok ret good) at ends)) (inl (whole good)) refl;
          fewer = omega arith;
        }
      ]

  -- A part in front of others has been written.
  next_part :
      (start : ℕ) (c d : Bytes) (ds : List Bytes) (s s1 : be.State)
      → Left start c (d ∷ ds)
      → be.write_ota_ws (length c) (some (c ++ (0 ∷ []))) s ≡ done esp_ok s1
      → course.Taken (take (start + length c) file) s1
      → PartAnswer
          (2 * length (d ∷ ds) + 2)
          (number size_of_part)
          (chunk_request c)
          (run_at start s)
  next_part start c d ds s s1 l wrote p1 =
      let (whole, more, some_byte) = next_length start c d ds l in
      record {
        ret = esp_ok;
        after =
            running be chunk_config json file course bufs (start + length c) s1
              (next_chunk_message (start + length c) ∷ []);
        run =
            handler-next_chunk be jsmn_parse chunk_config c (run_at start s) s1 some_byte refl
              (omega arith) (omega (arith, sendable.file_fits)) wrote;
        phase =
            asked (start + length c) d ds s1
              (record { split = rw whole (rw drop-drop at l.split.2); inside = omega arith }) p1
              refl;
        fewer = omega arith;
      }

  -- What is taken with a part.
  taken_file : (start : ℕ) (c : Bytes) → Left start c [] → take start file ++ c ≡ file
  taken_file start c l = rw (l.split.0) (take-drop start file)

  taken_more :
      (start : ℕ) (c d : Bytes) (ds : List Bytes)
      → Left start c (d ∷ ds)
      → take start file ++ c ≡ take (start + length c) file
  taken_more start c d ds l =
      rw ((next_length start c d ds l).0, l.split.0) (take_more start size_of_part file)

  taken_part :
      (start : ℕ) (c : Bytes) (cs : List Bytes) (s s1 : be.State)
      → Left start c cs
      → be.write_ota_ws (length c) (some (c ++ (0 ∷ []))) s ≡ done esp_ok s1
      → course.Taken (take start file ++ c) s1
      → PartAnswer (2 * length cs + 2) (number size_of_part) (chunk_request c) (run_at start s)
  taken_part start c [] s s1 l wrote p1 =
      last_part (number size_of_part) start c s s1 l wrote (rw (taken_file start c l) at p1)
  taken_part start c (d ∷ ds) s s1 l wrote p1 =
      next_part start c d ds s s1 l wrote (rw (taken_more start c d ds l) at p1)

  pub part-Answer :
      (start : ℕ) (c : Bytes) (cs : List Bytes) (s : be.State)
      → Left start c cs
      → course.Taken (take start file) s
      → PartAnswer (2 * length cs + 2) (number size_of_part) (chunk_request c) (run_at start s)
  part-Answer start c cs s l p =
      let (ret, s1, wrote, taken, refused) = follows.write_follows (take start file) c s p in
      elim (Bool-cases (is_err ret)) [
        | inl bad ↦
            refused_part (number size_of_part) (2 * length cs + 2) start c s s1 ret (omega arith)
              (part-not_empty start c cs l) bad wrote (refused bad)
        | inr good ↦
            taken_part start c cs s s1 l (rw (is_err-esp_ok ret good) at wrote) (taken good)
      ]
