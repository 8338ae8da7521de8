-- ===== src/Unix/Vectored.antt =====
-- rust-stdlib/pocs/029-vectored-writes-omit-sigpipe-suppression.rs: writes to a stream whose other end is closed.
-- A call that returns -1 gives `none`; `errno` is that of the last call that failed.
use security_audits.Base.{
  ℕ, ◌≡◌, Bool, true, false, ◌&&◌, ◌==◌, List, [], ◌∷◌, Option, none, some, replicate,
  if◌then◌else◌, Outcome, done, panic, ◌>>=◌,
}

pub record Sockets {ℓ} (S : Type ℓ) : Type ℓ where
  pub ignore_sigpipe : S → S
  pub socketpair : S → Option (ℕ × ℕ) × S
  pub close : ℕ → S → S
  pub send : ℕ → List ℕ → ℕ → S → Option ℕ × S
  pub writev : ℕ → List (List ℕ) → S → Option ℕ × S
  pub errno : S → ℕ

pub data Target : Type 0 where
  macos linux : Target

abbrev pub msg_nosignal : Target → ℕ
msg_nosignal macos = 0
msg_nosignal linux = 0x4000

abbrev pub libc_epipe : ℕ
libc_epipe = 32

abbrev pub is_none : Option ℕ → Bool
is_none none = true
is_none (some n) = false

abbrev pub payload : List ℕ
payload = replicate 16 0

module _ {ℓ} {S : Type ℓ} (os : Sockets S) where
  -- `make_pair`, which asserts that the call succeeds.
  abbrev pub pair_of : Option (ℕ × ℕ) × S → Outcome ((ℕ × ℕ) × S)
  pair_of (none, s) = panic
  pair_of (some p, s) = done (p, s)

  unfoldable pub make_pair : S → Outcome ((ℕ × ℕ) × S)
  make_pair s = pair_of (os.socketpair s)

  -- A write to a stream whose peer has been closed: its result and `errno`.
  unfoldable pub broken_write : (ℕ → S → Option ℕ × S) → S → Outcome ((Option ℕ × ℕ) × S)
  unfolding make_pair
  broken_write write s = do
    made ← make_pair s
    let ((a, b), s1) = made
    let (r, s2) = write a (os.close b s1)
    let write_errno = os.errno s2
    done ((r, write_errno), os.close a s2)

  -- The exit code. The source's second write is `vectored`.
  unfoldable pub main_vectored : Target → (ℕ → S → Option ℕ × S) → S → Outcome ℕ
  main_vectored target vectored s = do
    first ← broken_write (λ a. os.send a payload (msg_nosignal target)) (os.ignore_sigpipe s)
    second ← broken_write vectored first.1
    let (r, writev_errno) = second.0
    done (if is_none r && writev_errno == libc_epipe then 0 else 1)

  abbrev pub plain_writev : ℕ → S → Option ℕ × S
  plain_writev a = os.writev a (payload ∷ [])

  -- What is documented, where SIGPIPE is ignored: a write to a stream whose peer is closed fails with
  -- EPIPE, with `MSG_NOSIGNAL` or without.
  pub record Documented (ignoring : S → Type 0) (broken : ℕ → S → Type 0) : Type ℓ where
    pub ignores : (s : S) → ignoring (os.ignore_sigpipe s)
    pub ignoring-close : (fd : ℕ) (s : S) → ignoring s → ignoring (os.close fd s)
    pub ignoring-send :
        (fd n : ℕ) (bs : List ℕ) (s : S) → ignoring s → ignoring (os.send fd bs n s).1
    pub pairs :
        (s : S)
        → ignoring s
        → (a : ℕ) × (b : ℕ) × (s' : S) × ((os.socketpair s ≡ (some (a, b), s'))
            × ignoring s'
            × broken a (os.close b s'))
    pub send_fails :
        (fd n : ℕ) (bs : List ℕ) (s : S)
        → ignoring s
        → broken fd s
        → ((os.send fd bs n s).0 ≡ none) × (os.errno (os.send fd bs n s).1 ≡ libc_epipe)
    pub writev_fails :
        (fd : ℕ) (bss : List (List ℕ)) (s : S)
        → ignoring s
        → broken fd s
        → ((os.writev fd bss s).0 ≡ none) × (os.errno (os.writev fd bss s).1 ≡ libc_epipe)

  module _ (ignoring : S → Type 0) (broken : ℕ → S → Type 0)
      (laws : Documented ignoring broken) where
    abbrev FailsBroken : (ℕ → S → Option ℕ × S) → Type ℓ
    FailsBroken write =
        (fd : ℕ) (s : S)
        → ignoring s
        → broken fd s
        → ((write fd s).0 ≡ none) × (os.errno (write fd s).1 ≡ libc_epipe)
