-- ===== src/Windows/InheritRace.antt =====
-- rust-stdlib/pocs/066-socket-clone-inheritance-race-in-fallback-path.rs: a thread that makes a socket and
-- clears its flag later, and one that looks at the socket in between. Each atomic operation is a step.
mod Invariant
pub mod Window
mod Tests
use security_audits.Base.Runs
use security_audits.Base.{
  ℕ, ◌≡◌, ◌%◌, Bool, true, false, ◌==◌, Option, none, some, bit_and, bit_or, if◌then◌else◌,
}
use security_audits.Base.Words.{u32_mod}

abbrev pub wsa_flag_overlapped : ℕ
wsa_flag_overlapped = 0x01

abbrev pub wsa_flag_no_handle_inherit : ℕ
wsa_flag_no_handle_inherit = 0x80

abbrev pub wsasocketw_mock : ℕ → ℕ
wsasocketw_mock flags = bit_or 0x1000 flags

pub record Shared : Type 0 where
  pub observed : ℕ
  pub child_spawned : Bool

-- Where `fallback_clone` stands.
pub data Fallback : Type 0 where
  calling : Fallback
  has_socket : ℕ → Fallback
  spinning : ℕ → Fallback
  clearing : ℕ → Fallback
  returned : Fallback

-- Where `main` stands, with `socket_view` or `inheritable`.
pub data Observer : Type 0 where
  polling : Observer
  seen : Observer
  viewed : ℕ → Observer
  told : Bool → Observer
  joined : Bool → Observer
  ended : Observer
  failed : Observer

-- The next operation of `fallback_clone`; the mock that clears the flag does nothing.
unfoldable pub fallback_step : Shared → Fallback → Option (Shared × Fallback)
fallback_step m calling = some (m, has_socket (wsasocketw_mock wsa_flag_overlapped))
fallback_step m (has_socket socket) = some (record m { observed = socket }, spinning socket)
fallback_step m (spinning socket) =
    if m.child_spawned then some (m, clearing socket) else some (m, spinning socket)
fallback_step m (clearing socket) = some (m, returned)
fallback_step m returned = none

abbrev pub inheritable : ℕ → Bool
inheritable socket_view = bit_and (socket_view % u32_mod) wsa_flag_no_handle_inherit == 0

-- The next operation of `main`; `join` waits for the thread to return.
unfoldable pub observer_step : Shared → Fallback → Observer → Option (Shared × Observer)
observer_step m f polling = if m.observed == 0 then some (m, polling) else some (m, seen)
observer_step m f seen = some (m, viewed m.observed)
observer_step m f (viewed view) = some (record m { child_spawned = true }, told (inheritable view))
observer_step m returned (told b) = some (m, joined b)
observer_step m calling (told b) = none
observer_step m (has_socket n) (told b) = none
observer_step m (spinning n) (told b) = none
observer_step m (clearing n) (told b) = none
observer_step m f (joined true) = some (m, ended)
observer_step m f (joined false) = some (m, failed)
observer_step m f ended = none
observer_step m f failed = none

pub record State : Type 0 where
  pub shared : Shared
  pub fallback : Fallback
  pub observer : Observer

-- The two threads in any order.
pub data Step (s u : State) : Type 0 where
  fallback_moves :
      (m : Shared) (f : Fallback)
      → fallback_step s.shared s.fallback ≡ some (m, f)
      → u ≡ record { shared = m; fallback = f; observer = s.observer }
      → Step s u
  observer_moves :
      (m : Shared) (o : Observer)
      → observer_step s.shared s.fallback s.observer ≡ some (m, o)
      → u ≡ record { shared = m; fallback = s.fallback; observer = o }
      → Step s u

abbrev pub Reach : State → State → Type 0
Reach = Runs.Reach Step

abbrev pub start : State
start = record {
  shared = record { observed = 0; child_spawned = false };
  fallback = calling;
  observer = polling;
}
