-- ===== src/Unix/Interrupted.antt =====
-- rust-stdlib/pocs/123-interrupted-reads-are-not-retried.rs: `main`, which judges how its read ended. The signal
-- of its thread is one of the replies of `read`; `errno` is what `main` reads after the call.
use security_audits.Base.{
  ℕ, ◌≡◌, ◌==◌, ap, refl, ◌||◌, List, [], ◌∷◌, ◌++◌, Option, none, some, if◌then◌else◌, Result, ok,
  err,
}
use security_audits.Pushpin.ContentLength.Decimal.{numeral}
use security_audits.Unix.Redirect.{contains}
use security_audits.Unix.ReadFile.{
  Reply, failed, chunks, eintr, vulnerable_read_file, read_file-ends,
}

-- The three lines that `main` can print, with the error of the first two.
pub data Verdict : Type 0 where
  triggered : ℕ → Verdict
  different_errno : ℕ → Verdict
  end_of_file : Verdict

-- "errno=4".
abbrev pub errno_4 : List ℕ
errno_4 = b'e' ∷ b'r' ∷ b'r' ∷ b'n' ∷ b'o' ∷ b'=' ∷ b'4' ∷ []

-- `format!("read failed errno={}", e)`.
abbrev pub message : ℕ → List ℕ
message e =
    (b'r' ∷ b'e' ∷ b'a' ∷ b'd' ∷ 32 ∷ b'f' ∷ b'a' ∷ b'i' ∷ b'l' ∷ b'e' ∷ b'd' ∷ 32 ∷ [])
    ++ (b'e' ∷ b'r' ∷ b'r' ∷ b'n' ∷ b'o' ∷ b'=' ∷ numeral e)

-- The last two tests of the guard are the same one.
abbrev pub judged : ℕ → Option (Result (Unit {0}) ℕ) → Option Verdict
judged errno none = none
judged errno (some (ok x)) = some end_of_file
judged errno (some (err e)) =
    if errno == eintr || contains (message e) errno_4
    then some (triggered e)
    else some (different_errno e)

-- `none` where the read blocks for ever.
unfoldable pub main_read : List Reply → ℕ → Option Verdict
main_read replies errno = judged errno (vulnerable_read_file replies)

-- Whatever has been read before, an interrupted read ends the program with the line for the bug.
pub main_read-interrupted :
    (ns : List ℕ) (rest : List Reply)
    → main_read (chunks ns ++ failed eintr ∷ rest) eintr ≡ some (triggered eintr)
unfolding main_read
main_read-interrupted ns rest = ap (judged eintr) (read_file-ends ns rest).0

-- So does a read that fails with 40, whose numeral starts with a 4.
forty_counts : (rest : List Reply) → main_read (failed 40 ∷ rest) 40 ≡ some (triggered 40)
unfolding main_read vulnerable_read_file contains numeral
forty_counts rest = refl
