-- ===== src/Unix/Restore.antt =====
-- rust-stdlib/pocs/026-restore-failure-leaks-saved-descriptor.rs: saving and restoring stdin, round by
-- round. The result `Some(fd)` of a round is a saved descriptor that it did not close.
pub mod Leak
use security_audits.Base.{
  ℕ, zero, suc, ◌==◌, Bool, true, false, ◌&&◌, List, [], ◌∷◌, ◌++◌, Option, none, some, length, ltb,
  if◌then◌else◌,
}
use security_audits.Unix.Descriptors.{Calls}

abbrev pub push : List ℕ → Option ℕ → List ℕ
push leaks none = leaks
push leaks (some fd) = leaks ++ fd ∷ []

-- `leaks.iter().all(|&fd| fd > 2)`.
unfoldable pub all_above_2 : List ℕ → Bool
all_above_2 [] = true
all_above_2 (fd ∷ fds) = ltb 2 fd && all_above_2 fds

module _ {ℓ} {S : Type ℓ} (sys : Calls S) where
  -- From the reply of `dup2` on, and from that of `dup`.
  abbrev pub restored : ℕ → Option ℕ × S → Option ℕ × S
  restored saved (none, s) = (some saved, s)
  restored saved (some n, s) = (none, sys.close saved s)

  abbrev pub saved_round : Bool → Option ℕ × S → Option ℕ × S
  saved_round simulate_dup2_fail (none, s) = (none, s)
  saved_round simulate_dup2_fail (some saved, s) =
      restored saved (if simulate_dup2_fail then (none, s) else sys.dup2 saved 0 s)

  unfoldable pub buggy_restore_round : Bool → S → Option ℕ × S
  buggy_restore_round simulate_dup2_fail s = saved_round simulate_dup2_fail (sys.dup 0 s)

  -- The loop of `main`, with the leaks that it has collected.
  unfoldable pub restore_rounds : ℕ → List ℕ → S → List ℕ × S
  restore_rounds zero leaks s = (leaks, s)
  restore_rounds (suc n) leaks s =
      let reply = buggy_restore_round true s in restore_rounds n (push leaks reply.0) reply.1

  unfoldable pub close_all : List ℕ → S → S
  close_all [] s = s
  close_all (fd ∷ fds) s = close_all fds (sys.close fd s)

  -- The exit code, and the system at the exit.
  abbrev pub restore_exit : List ℕ → S → ℕ × S
  restore_exit leaks s =
      if length leaks == 16 && all_above_2 leaks then (0, close_all leaks s) else (1, s)

  unfoldable pub main_restore : S → ℕ × S
  main_restore s = let rounds = restore_rounds 16 [] s in restore_exit rounds.0 rounds.1
