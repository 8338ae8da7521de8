-- ===== src/Unix/Redirect.antt =====
-- rust-stdlib/pocs/025-early-error-leaves-redirected-stdio.rs: a spawn that redirects the caller's own
-- stdin and restores it only where no call fails.
pub mod Stdin
pub mod Probe
use security_audits.Base.{
  ℕ, Bool, true, false, not, ◌&&◌, ◌||◌, List, [], ◌∷◌, ◌++◌, Option, none, some, if◌then◌else◌,
  Outcome, done, panic, ◌>>=◌, ◌>>◌, assert, unwrap, Result, ok, err, ◌==◌, take,
}
use security_audits.Unix.Descriptors.{Calls}

pub data SpawnError : Type 0 where
  dup_failed dup2_failed chdir_failed : SpawnError

-- The other calls of the program: `chdir` to the missing directory, the file that is made with its line
-- and opened, and a `read` into the buffer of 32 bytes. `open_redirect` is `none` where
-- one of its calls fails.
pub record Files {ℓ} (S : Type ℓ) : Type ℓ where
  pub chdir : S → Bool × S
  pub open_redirect : List ℕ → S → Option ℕ × S
  pub read : ℕ → ℕ → S → Option (List ℕ) × S

-- "REDIRECTED-STDIN-CONTENT".
abbrev pub marker : List ℕ
marker =
    b'R' ∷ b'E' ∷ b'D' ∷ b'I' ∷ b'R' ∷ b'E' ∷ b'C' ∷ b'T' ∷ b'E' ∷ b'D' ∷ b'-' ∷ b'S' ∷ b'T' ∷ b'D'
    ∷ b'I' ∷ b'N' ∷ b'-' ∷ b'C' ∷ b'O' ∷ b'N' ∷ b'T' ∷ b'E' ∷ b'N' ∷ b'T' ∷ []

abbrev pub line : List ℕ
line = marker ++ 10 ∷ []

abbrev starts_with : List ℕ → List ℕ → Bool
starts_with xs [] = true
starts_with [] (y ∷ ys) = false
starts_with (x ∷ xs) (y ∷ ys) = x == y && starts_with xs ys

-- `str::contains`. The pattern is ASCII, so `from_utf8_lossy` before it changes nothing.
unfoldable pub contains : List ℕ → List ℕ → Bool
contains [] p = starts_with [] p
contains (x ∷ xs) p = starts_with (x ∷ xs) p || contains xs p

abbrev pub is_err : Result (Unit {0}) SpawnError → Bool
is_err (ok x) = false
is_err (err e) = true

-- `unwrap_or(0)` of a failed read leaves no byte of the buffer.
abbrev pub bytes_read : Option (List ℕ) → List ℕ
bytes_read none = []
bytes_read (some bs) = bs

module _ {ℓ} {S : Type ℓ} (sys : Calls S) (files : Files S) where
  -- From the replies of `chdir`, of `dup2` and of `dup` on.
  abbrev pub in_dir : ℕ → Bool × S → Result (Unit {0}) SpawnError × S
  in_dir orig_stdin (false, s) = (err chdir_failed, s)
  in_dir orig_stdin (true, s) = (ok tt, sys.close orig_stdin (sys.dup2 orig_stdin 0 s).1)

  abbrev pub redirected : ℕ → Option ℕ × S → Result (Unit {0}) SpawnError × S
  redirected orig_stdin (none, s) = (err dup2_failed, s)
  redirected orig_stdin (some n, s) = in_dir orig_stdin (files.chdir s)

  abbrev pub with_saved : ℕ → Option ℕ × S → Result (Unit {0}) SpawnError × S
  with_saved child_stdin_fd (none, s) = (err dup_failed, s)
  with_saved child_stdin_fd (some orig_stdin, s) =
      redirected orig_stdin (sys.dup2 child_stdin_fd 0 s)

  unfoldable pub faux_spawn_buggy : ℕ → S → Result (Unit {0}) SpawnError × S
  faux_spawn_buggy child_stdin_fd s = with_saved child_stdin_fd (sys.dup 0 s)

  -- Whether the program reports the bug, its exit code, and the system at the exit. A descriptor of -1
  -- must not reach `from_raw_fd`: the run counts as a panic.
  unfoldable pub main_redirect : S → Outcome (Bool × ℕ × S)
  main_redirect s = do
    let (opened, s1) = files.open_redirect line s
    fd ← unwrap opened
    let (saved, s2) = sys.dup 0 s1
    saved_stdin ← unwrap saved
    let (res, s3) = faux_spawn_buggy fd s2
    assert (is_err res)
    let (copy, s4) = sys.dup 0 s3
    stdin_now ← unwrap copy
    let (n, s5) = files.read stdin_now 32 s4
    let observed = bytes_read n
    let s6 = sys.close saved_stdin (sys.dup2 saved_stdin 0 s5).1
    if contains observed marker then done (true, 0, s6) else done (false, 0, s6)
