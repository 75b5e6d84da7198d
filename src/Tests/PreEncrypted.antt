-- ===== src/Tests/PreEncrypted.antt =====
-- The flash writer for encrypted images, with a library that takes every chunk as it is.
use ota_ws_update.Base.{
  ℕ, zero, suc, ◌-◌, ◌==◌, ◌<◌, ltb, if◌then◌else◌, Bool-cases, drop, ◌≡◌, ◌≢◌, refl, inl, inr,
  false, some, none, Bytes, [], length, take, codes, arith,
}
use ota_ws_update.Esp.{EspErr, esp_ok, esp_fail, esp_err_not_finished, done, crash, use_after_free}
use ota_ws_update.Backend.{Ends}
use ota_ws_update.EncryptedImg.{EncryptedImg, Decrypted, keep, resize, update}
use ota_ws_update.PreEncrypted.{PreEncOta, initial}
use ota_ws_update.PreEncrypted.Library.{put_ctx, esp_encrypted_img_decrypt_end}
use ota_ws_update.PreEncrypted.Writer.{
  start_ota_ws, write_ota_ws, end_ota_ws, abort_ota_ws, pre_encrypted,
}
use ota_ws_update.PreEncrypted.Abort.{IsOwned, aborted, abort_twice}
use ota_ws_update.PreEncrypted.Output.{DecryptLaws, OutputOf, in_header, some_bytes, IsSound}
use ota_ws_update.PreEncrypted.Write.{Written, write_ota_ws-Ends}
use ota_ws_update.PreEncrypted.End.{end_ota_ws-refused_image, end_ota_ws-then_abort}
use ota_ws_update.PreEncrypted.Start.{start_ota_ws-leak}
use ota_ws_update.Http.Session
use ota_ws_update.Http.Session.{Session}
use ota_ws_update.Http.Handler.{ota_ws_handler}
use ota_ws_update.Stack.{cancel_after_update}
use ota_ws_update.Tests.Chip.{Chip, chip, empty_chip}
use ota_ws_update.Tests.Frames.{
  text_request-IsTextFrame, cancel_request, cancel_parse, cancel_parsed, first_chunk,
}

abbrev plain_decrypt : Bytes → ℕ → ℕ → Decrypted ℕ
plain_decrypt input n c = record {
  ctx = c;
  ret = esp_ok;
  out = resize (take n input);
  out_len = some (length (take n input));
}

-- `verdict` is what the library finds at the end of every image.
abbrev pub copying : EspErr → EncryptedImg
copying verdict = record {
  Ctx = ℕ;
  decrypt_start = λ key last. some 7;
  decrypt_data = plain_decrypt;
  decrypt_end = λ c. verdict;
}

abbrev pub State : Type 0
State = PreEncOta Chip ℕ

pub copying_laws : (verdict : EspErr) → DecryptLaws (copying verdict)
copying_laws verdict = record {
  Decoding = λ c. Unit;
  output = λ input n c good.
      some_bytes (take n input) (length (take n input)) tt refl refl (omega arith);
}

-- A library with a header of four bytes, which have to come in one chunk: it leaves both fields of the
-- output as long as they have not.
abbrev headed_decrypt : Bytes → ℕ → ℕ → Decrypted ℕ
headed_decrypt input n zero =
    if ltb n 4
    then record { ctx = 0; ret = esp_err_not_finished; out = keep; out_len = none }
    else plain_decrypt (drop 4 input) (n - 4) 1
headed_decrypt input n (suc c) = plain_decrypt input n (suc c)

abbrev headed : EncryptedImg
headed = record {
  Ctx = ℕ;
  decrypt_start = λ key last. some 0;
  decrypt_data = headed_decrypt;
  decrypt_end = λ c. if c == 0 then esp_fail else esp_ok;
}

copied :
    (input : Bytes) (n c : ℕ) (before : ℕ)
    → 0 < c
    → OutputOf (λ c. 0 < c) before (plain_decrypt input n c)
copied input n c before behind =
    some_bytes (take n input) (length (take n input)) behind refl refl (omega arith)

headed-OutputOf : (input : Bytes) (n c : ℕ) → OutputOf (λ c. 0 < c) c (headed_decrypt input n c)
headed-OutputOf input n zero = elim (Bool-cases (ltb n 4)) [
  | inl inside ↦ rw inside (in_header (λ decodes. omega (arith, decodes)) refl refl)
  | inr behind ↦ rw behind (copied (drop 4 input) (n - 4) 1 0 (omega arith))
]
headed-OutputOf input n (suc c) = copied input n (suc c) (suc c) (omega arith)

headed_laws : DecryptLaws headed
headed_laws = record { Decoding = λ c. 0 < c; output = λ input n c good. headed-OutputOf input n c }

-- An update has started: the context stands at address 1.
abbrev pub started : State
started = record (initial empty_chip) {
  update_partition = some 1;
  update_handle = 1;
  enc_handle = 1;
  heap = record { last = 1; ctx_at = update (λ _. none) 1 (some 7); buf_at = λ _. none };
}

started-IsOwned : IsOwned started
started-IsOwned = record { handle_live = inr (7, refl); out_live = inl refl }

started-IsSound : IsSound started
started-IsSound = record {
  owned = started-IsOwned;
  readable = record { output = inl (refl, λ unchecked. refl) };
  fresh = λ unchecked. refl;
}

pub start_runs :
    start_ota_ws chip (copying esp_ok) false [] (initial empty_chip) ≡ done esp_ok started
unfolding start_ota_ws
start_runs = refl

-- An update starts while the one before is neither ended nor aborted.
abbrev restarted : State
restarted = record started {
  enc_handle = 2;
  heap = record (started.heap) { last = 2; ctx_at = update started.heap.ctx_at 2 (some 7) };
}

restart_runs : start_ota_ws chip (copying esp_ok) false [] started ≡ done esp_ok restarted
unfolding start_ota_ws
restart_runs = refl

abbrev ended : State
ended =
    put_ctx Chip (copying esp_ok) 1 none (record started { dev = record { boot = 1; image = [] } })

end_runs : end_ota_ws chip (copying esp_ok) false [] started ≡ done esp_ok ended
unfolding end_ota_ws esp_encrypted_img_decrypt_end
end_runs = refl

start_ota_ws-leak_example : (restarted.heap.ctx_at 1 ≡ some 7) × (restarted.enc_handle ≢ 1)
start_ota_ws-leak_example =
    start_ota_ws-leak chip (copying esp_ok) false [] started restarted 7 refl (omega arith) refl
      restart_runs

abort_twice_example :
    (abort_ota_ws chip (copying esp_ok) false [] started
      ≡ done esp_ok (aborted chip (copying esp_ok) false [] started))
    × (abort_ota_ws chip (copying esp_ok) false [] (aborted chip (copying esp_ok) false [] started)
        ≡ done esp_ok (aborted chip (copying esp_ok) false [] started))
abort_twice_example = abort_twice chip (copying esp_ok) false [] started started-IsOwned

write_ota_ws-Ends_example :
    Ends ⊥
      (Written chip headed false [])
      (write_ota_ws chip headed false [] 5 (some first_chunk) started)
write_ota_ws-Ends_example =
    write_ota_ws-Ends chip headed false [] headed_laws 5 (some first_chunk) started started-IsSound

end_ota_ws-refused_image_example :
    end_ota_ws chip (copying esp_fail) false [] started ≡ crash use_after_free
end_ota_ws-refused_image_example =
    end_ota_ws-refused_image chip (copying esp_fail) false [] started 7 refl refl refl

end_ota_ws-then_abort_example :
    (esp_ok ≡ esp_ok) × (abort_ota_ws chip (copying esp_ok) false [] ended ≡ crash use_after_free)
end_ota_ws-then_abort_example =
    end_ota_ws-then_abort chip (copying esp_ok) false [] started ended esp_ok started-IsOwned refl
      end_runs

cancel_after_update_example :
    ota_ws_handler
      (pre_encrypted chip (copying esp_ok) false [])
      cancel_parse
      4096
      cancel_request
      (Session.initial ended)
    ≡ crash use_after_free
cancel_after_update_example =
    cancel_after_update chip (copying esp_ok) false [] cancel_parse 4096 cancel_request (codes "1")
      esp_ok started (Session.initial ended) (text_request-IsTextFrame cancel_request.payload) refl
      (λ s. cancel_parsed s) started-IsOwned refl end_runs
