-- ===== src/Pushpin/SocketRace.antt =====
-- pushpin/poc/001-unix-socket/src/main.rs: a server that binds a Unix socket and restricts its mode
-- afterwards, and a client that connects as soon as it can. The operating system is an argument: its
-- state is `K`, and what the program relies on are the laws of `Socket`.
pub mod Kernel
pub mod Invariant
pub mod Lost
pub mod Window
mod Tests
use security_audits.Base.Runs
use security_audits.Base.{
  ℕ, ◌≡◌, Bool, true, false, not, ◌&&◌, ◌==◌, if◌then◌else◌, List, [], ◌∷◌, Option, none, some,
  bit_and,
}
use security_audits.Base.Bytes.{bytes_eq}
use Kernel.{Socket}

-- "served\n".
abbrev pub served_bytes : List ℕ
served_bytes = b's' ∷ b'e' ∷ b'r' ∷ b'v' ∷ b'e' ∷ b'd' ∷ 10 ∷ []

-- Where `main` stands after the bind, with its locals: the modes seen after the bind and after the
-- change, the accepted stream, the attacker's stream, what the attacker read, and whether the
-- last connect succeeded.
pub data Main : Type 0 where
  listening : ℕ → Main
  woke : ℕ → Main
  restricted : ℕ → Main
  measured : ℕ → ℕ → Main
  accepted : ℕ → ℕ → ℕ → Main
  raced : ℕ → ℕ → ℕ → ℕ → Main
  served : ℕ → ℕ → ℕ → Main
  read : ℕ → ℕ → List ℕ → Main
  attempted : ℕ → ℕ → List ℕ → Bool → Main
  panicked_at_timeout : Main
  exited : ℕ → Main

-- The attacker's thread: before `ready_rx.recv`, in its loop, and with its stream sent.
pub data Attacker : Type 0 where
  sleeping : Attacker
  hammering : Attacker
  connected : ℕ → Attacker

-- The exit code.
unfoldable pub verdict : ℕ → ℕ → List ℕ → Bool → ℕ
unfolding bytes_eq
verdict post_bind_mode post_chmod_mode buf connects =
    let raced' =
      post_bind_mode == 511 && post_chmod_mode == 0 && bytes_eq buf served_bytes && not connects in
    if raced' then 0 else 1

abbrev pub ready_sent : Main → Bool
ready_sent (listening m) = false
ready_sent main = true

abbrev pub is_some : Option ℕ → Bool
is_some none = false
is_some (some c) = true

module _ {ℓ} {K : Type ℓ} (os : Socket K) where
  abbrev pub listening_at : Option K → Option (Main × K)
  listening_at none = none
  listening_at (some k) = some (listening (bit_and (os.mode k) 511), k)

  -- From the remains of an earlier run to the mode after the bind; `none` where the bind fails.
  unfoldable pub bound : K → Option (Main × K)
  bound k = listening_at (os.bind (os.umask 0 (os.remove_file k)))

  abbrev pub accepting : ℕ → ℕ → Option (ℕ × K) → Option (Main × K)
  accepting bind_mode chmod_mode none = none
  accepting bind_mode chmod_mode (some (c, k)) = some (accepted bind_mode chmod_mode c, k)

  abbrev pub attempting : ℕ → ℕ → List ℕ → Option ℕ × K → Option (Main × K)
  attempting bind_mode chmod_mode buf (r, k) =
      some (attempted bind_mode chmod_mode buf (is_some r), k)

  -- The next operation of `main`; `none` where it blocks or has ended.
  unfoldable pub main_step : Main → Attacker → K → Option (Main × K)
  main_step (listening m) a k = some (woke m, k)
  main_step (woke m) a k = some (restricted m, os.set_mode 0 k)
  main_step (restricted m) a k = some (measured m (bit_and (os.mode k) 511), k)
  main_step (measured m p) a k = accepting m p (os.accept k)
  main_step (accepted m p c) (connected d) k = some (raced m p c d, k)
  main_step (accepted m p c) sleeping k = none
  main_step (accepted m p c) hammering k = none
  main_step (raced m p c d) a k = some (served m p d, os.write c served_bytes k)
  main_step (served m p d) a k = some (read m p (os.received d k), k)
  main_step (read m p buf) a k = attempting m p buf (os.connect k)
  main_step (attempted m p buf connects) (connected d) k =
      some (exited (verdict m p buf connects), k)
  main_step (attempted m p buf connects) sleeping k = none
  main_step (attempted m p buf connects) hammering k = none
  main_step panicked_at_timeout a k = none
  main_step (exited n) a k = none

  abbrev pub hammered : Option ℕ × K → Option (Attacker × K)
  hammered (none, k) = some (hammering, k)
  hammered (some c, k) = some (connected c, k)

  -- The next operation of the attacker.
  unfoldable pub attacker_step : Main → Attacker → K → Option (Attacker × K)
  attacker_step main sleeping k = if ready_sent main then some (hammering, k) else none
  attacker_step main hammering k = hammered (os.connect k)
  attacker_step main (connected c) k = none

  pub record State : Type ℓ where
    pub main : Main
    pub attacker : Attacker
    pub kernel : K

  -- The two threads in any order. `recv_timeout` may end before the attacker has sent its stream.
  pub data Step (s u : State) : Type ℓ where
    main_moves :
        (m : Main) (k : K)
        → main_step s.main s.attacker s.kernel ≡ some (m, k)
        → u ≡ record { main = m; attacker = s.attacker; kernel = k }
        → Step s u
    attacker_moves :
        (a : Attacker) (k : K)
        → attacker_step s.main s.attacker s.kernel ≡ some (a, k)
        → u ≡ record { main = s.main; attacker = a; kernel = k }
        → Step s u
    times_out :
        (m p c : ℕ)
        → s.main ≡ accepted m p c
        → u ≡ record { main = panicked_at_timeout; attacker = s.attacker; kernel = s.kernel }
        → Step s u

  abbrev pub Reach : State → State → Type ℓ
  Reach = Runs.Reach Step

  -- A run of the program, from a state of the system in which the bind succeeds.
  abbrev pub Run : K → State → Type ℓ
  Run k s =
      (m : Main) × (k' : K) × (bound k ≡ some (m, k'))
      × Reach (record { main = m; attacker = sleeping; kernel = k' }) s
