-- ===== src/Backend/Course.antt =====
-- A flash writer in the course of an update: what each of its answers says of its state.
use ota_ws_update.Base.{
  ℕ, ◌≡◌, ◌⊎◌, true, false, some, [], ◌∷◌, ◌++◌, arith, Bytes, length, length-append,
}
use ota_ws_update.Esp.{EspErr, is_err, Outcome, done}
use ota_ws_update.Backend.{Backend, Answers, Returns}

-- What is known of a flash writer's state in the course of an update: in front of it, with these bytes
-- taken, with a call that has failed, and when it is over, with all bytes taken or by an abort.
pub record Course (S : Type 0) : Type 1 where
  pub Before : S → Type 0
  pub Taken : Bytes → S → Type 0
  pub Failed : S → Type 0
  pub Aborted : S → Type 0
  pub Whole : Bytes → S → Type 0

abbrev pub Over : {S : Type 0} → Course S → Bytes → S → Type 0
Over course image s = course.Whole image s ⊎ course.Aborted s

-- A call that returns, in a state that its code tells.
abbrev pub Tells : {S : Type 0} → (S → Type 0) → (S → Type 0) → Outcome S EspErr → Type 0
Tells {S} Good Bad o =
    (ret : EspErr) × (s : S) × (o ≡ done ret s)
    × (is_err ret ≡ false → Good s)
    × (is_err ret ≡ true → Bad s)

-- The calls of an update return and follow the course; a chunk comes with a zero behind it.
pub record Follows (be : Backend) (course : Course be.State) : Type 0 where
  pub start_follows :
      (s : be.State) → course.Before s → Tells (course.Taken []) course.Failed (be.start_ota_ws s)
  pub write_follows :
      (image c : Bytes) (s : be.State)
      → course.Taken image s
      → Tells
          (course.Taken (image ++ c))
          course.Failed
          (be.write_ota_ws (length c) (some (c ++ (0 ∷ []))) s)
  pub end_follows :
      (image : Bytes) (s : be.State)
      → course.Taken image s
      → Tells (course.Whole image) course.Failed (be.end_ota_ws s)
  pub abort_follows : (s : be.State) → course.Failed s → Answers course.Aborted (be.abort_ota_ws s)

-- One invariant all the way.
abbrev pub steady : {S : Type 0} → (S → Type 0) → Course S
steady P = record { Before = P; Taken = λ image. P; Failed = P; Aborted = P; Whole = λ image. P }

told_both : {S : Type 0} (P : S → Type 0) (o : Outcome S EspErr) → Answers P o → Tells P P o
told_both P o (ret, s, run, p) = (ret, s, run, (λ _. p), (λ _. p))

pub steady-Follows : (be : Backend) (P : be.State → Type 0) → Returns be P → Follows be (steady P)
steady-Follows be P returns = record {
  start_follows = λ s p. told_both P (be.start_ota_ws s) (returns.start_returns s p);
  write_follows = λ image c s p. told_both P (be.write_ota_ws (length c) (some (c ++ (0 ∷ []))) s) (
      returns.write_returns (length c) (some (c ++ (0 ∷ []))) s p
        (omega (arith, length-append {0} {A = ℕ} c (0 ∷ []))));
  end_follows = λ image s p. told_both P (be.end_ota_ws s) (returns.end_returns s p);
  abort_follows = λ s p. returns.abort_returns s p;
}
