-- ===== src/Tests/BeforeEnd.antt =====
-- An encrypted update is started, a first part arrives, and the update is cancelled.
use ota_ws_update.Base.{◌≡◌, refl, false, List, [], ◌∷◌, Bytes, arith, codes, replicate}
use mathlib.Core.Path.{subst}
use ota_ws_update.Esp.{EspErr, esp_ok, done, Outcome}
use ota_ws_update.Word.{add32}
use ota_ws_update.Backend.{Ends}
use ota_ws_update.Http.Keys
use ota_ws_update.Http.Session
use ota_ws_update.Http.Session.{Session}
use ota_ws_update.Http.Handler.{Request, ota_ws_handler, serve}
use ota_ws_update.Http.Invariant.{IsConsistent}
use ota_ws_update.Http.Upload.{chunk_request}
use ota_ws_update.Http.Upload.Announce.{announced}
use ota_ws_update.Http.Ending.{GoesOn, without_end, handler-without_end}
use ota_ws_update.Http.BeforeEnd.{NoEnd}
use ota_ws_update.EncryptedImg.{EncryptedImg}
use ota_ws_update.PreEncrypted.{initial}
use ota_ws_update.PreEncrypted.Output.{IsSound}
use ota_ws_update.PreEncrypted.Writer.{pre_encrypted}
use ota_ws_update.Client.{text_request}
use ota_ws_update.Client.Ready.{size_text, handler-size}
use ota_ws_update.Client.Commands.{command_request}
use ota_ws_update.Client.Tame.{size-IsTame, command-IsTame, chunk-IsTame}
use ota_ws_update.Stack.Encrypted.{encrypted_safe}
use ota_ws_update.Tests.Chip.{chip, empty_chip}
use ota_ws_update.Tests.Known.{page_tokens, page_tokens_laws, page_known}
use ota_ws_update.Tests.PreEncrypted.{State, copying, copying_laws, started, start_runs}

abbrev library : EncryptedImg
library = copying esp_ok

abbrev part : Bytes
part = replicate 16 233

abbrev reqs : List Request
reqs =
    text_request (size_text 21)
    ∷ chunk_request part
    ∷ command_request Keys.ota_cancel (codes "Cancel")
    ∷ []

abbrev idle : Session State
idle = Session.initial (initial empty_chip)

same_state :
    {S A : Type 0} (a b : A) (s t : S) (o : Outcome S A) → o ≡ done a s → o ≡ done b t → s ≡ t
same_state a b s t o e e' = ground arith

goes_on :
    (ret : EspErr) (w : Session State)
    → ota_ws_handler
        (pre_encrypted chip library false [])
        page_tokens
        20
        (text_request (size_text 21))
        idle
      ≡ done ret w
    → GoesOn (chunk_request part) w
unfolding add32
goes_on ret w run =
    let takes =
      handler-size (pre_encrypted chip library false []) page_tokens 20 21 idle started
        (page_known.sizes 21 (omega arith)) (omega arith) (omega arith) start_runs in
    subst (GoesOn (chunk_request part))
      (same_state esp_ok ret (announced 20 21 started idle) w _ takes run) (λ is_binary runs. refl)

no_end : NoEnd (pre_encrypted chip library false []) page_tokens 20 reqs idle
no_end = (
  λ is_binary runs. cc,
  λ ret w run. (goes_on ret w run, λ ret' w' run'. (λ is_binary runs. cc, λ r v e. tt)),
)

encrypted_safe_example :
    Ends ⊥
      (λ _ w. IsConsistent w × (w.live_bufs ≡ 0) × IsSound w.backend)
      (serve (pre_encrypted chip library false []) page_tokens 20 reqs idle)
encrypted_safe_example =
    encrypted_safe chip library (copying_laws esp_ok) false [] page_tokens page_tokens_laws 20 reqs
      empty_chip (λ d. (1, refl))
      (
        size-IsTame page_tokens page_known 21 (omega arith),
        (
          chunk-IsTame page_tokens page_known part,
          (
            command-IsTame page_tokens page_known Keys.ota_cancel (codes "Cancel") refl refl
                (omega arith) page_known.cancel,
            tt,
          ),
        ),
      )
      no_end

handler-without_end_example :
    ota_ws_handler
      (pre_encrypted chip library false [])
      page_tokens
      20
      (chunk_request part)
      (announced 20 21 started idle)
    ≡ ota_ws_handler
        (without_end (pre_encrypted chip library false []))
        page_tokens
        20
        (chunk_request part)
        (announced 20 21 started idle)
unfolding add32
handler-without_end_example =
    handler-without_end (pre_encrypted chip library false []) page_tokens 20 (chunk_request part)
      (announced 20 21 started idle) (λ is_binary runs. refl)
