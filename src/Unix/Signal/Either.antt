-- ===== src/Unix/Signal/Either.antt =====
-- Runs of 123 that end in different ways.
use security_audits.Base.{
  ℕ, zero, suc, ◌≡◌, true, false, List, ◌∷◌, Option, some, Result, err, refl,
}
use security_audits.Base.Runs.{here, next}
use security_audits.Unix.ReadFile.{vulnerable_read_file, Reply, failed, got, eintr}
use security_audits.Unix.Signal.{
  SignalTarget, act, MainThread, blocked, returned, ending, State, main_next, read_round,
  sender_next, start, main_moves, sender_moves, Reach,
}

-- What the loop makes of what is read next, if it goes on.
abbrev after_round : MainThread → Option (Result (Unit {0}) ℕ) → Option (Result (Unit {0}) ℕ)
after_round (returned res) rest = some res
after_round m rest = rest

-- A round is one of the loop.
read_file-round :
    (r : Reply) (rs : List Reply)
    → vulnerable_read_file (r ∷ rs) ≡ after_round (read_round r) (vulnerable_read_file rs)
unfolding vulnerable_read_file
read_file-round (failed e) rs = refl
read_file-round (got zero) rs = refl
read_file-round (got (suc n)) rs = refl

-- The signal has been sent while `main` reads.
abbrev pub sent : ℕ → State
sent handler = record {
  main = blocked;
  sender = ending;
  action = some (act handler);
  pending = true;
  errno = 0;
}

abbrev interrupted : ℕ → State
interrupted handler = record {
  main = returned (err eintr);
  sender = ending;
  action = some (act handler);
  pending = false;
  errno = eintr;
}

module _ (target : SignalTarget) (handler : ℕ) where
  pub Reach-sent : Reach target handler start (sent handler)
  unfolding main_next sender_next
  Reach-sent =
      next
        (next
          (next (next (next here (main_moves true refl)) (main_moves true refl))
            (main_moves true refl))
          (main_moves true refl))
        (sender_moves refl refl)
