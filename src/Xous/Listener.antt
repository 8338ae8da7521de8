-- ===== src/Xous/Listener.antt =====
-- rust-stdlib/pocs/041-accept-can-orphan-rebound-listener-fd.rs: threads that accept on one listener, each
-- atomic operation a step. A thread that has not been spawned yet is one that has not been picked.
pub mod Accounts
pub mod Progress
mod Tests
use security_audits.Base.{
  ℕ, zero, suc, ◌+◌, ◌-◌, ◌%◌, ◌≡◌, List, [], ◌∷◌, ◌++◌, Option, none, some, replicate, ltb,
  Outcome, assert,
}
use security_audits.Base.Threads
use security_audits.Base.Threads.{Machine}
use security_audits.Base.Words.{u32_mod, usize_mod, wrapping_add, wrapping_sub}

-- The statics and the listener's `fd`.
pub record Shared : Type 0 where
  pub fd_allocator : ℕ
  pub live_fds : ℕ
  pub closed_fds : ℕ
  pub listener_fd : ℕ

-- `fetch_add` and `fetch_sub`, which wrap.
abbrev pub count_live : Shared → Shared
count_live m = record m { live_fds = wrapping_add usize_mod m.live_fds 1 }

abbrev pub next_fd : Shared → Shared
next_fd m = record m { fd_allocator = wrapping_add u32_mod m.fd_allocator 1 }

abbrev pub uncount_live : Shared → Shared
uncount_live m = record m { live_fds = wrapping_sub usize_mod m.live_fds 1 }

abbrev pub count_closed : Shared → Shared
count_closed m = record m { closed_fds = wrapping_add usize_mod m.closed_fds 1 }

-- `alloc_fd` and `close_fd` with nothing in between.
abbrev pub alloc_fd : Shared → ℕ × Shared
alloc_fd m = (m.fd_allocator, next_fd (count_live m))

abbrev pub close_fd : Shared → Shared
close_fd m = count_closed (uncount_live m)

-- Where a thread stands in its loop, with the rounds that follow this one; `ready` has its round still
-- to come.
pub data Thread : Type 0 where
  ready : ℕ → Thread
  counted_stream : ℕ → Thread
  has_stream : ℕ → Thread
  counted_listener : ℕ → Thread
  has_listener : ℕ → ℕ → Thread
  stored : ℕ → Thread
  uncounted : ℕ → Thread

-- The next atomic operation of `buggy_accept` and of the `close_fd` after it; `none` once the loop is over.
unfoldable pub advance : Shared → Thread → Option (Shared × Thread)
advance m (ready zero) = none
advance m (ready (suc k)) = some (count_live m, counted_stream k)
advance m (counted_stream k) = some (next_fd m, has_stream k)
advance m (has_stream k) = some (count_live m, counted_listener k)
advance m (counted_listener k) = some (next_fd m, has_listener k m.fd_allocator)
advance m (has_listener k new_fd) = some (record m { listener_fd = new_fd }, stored k)
advance m (stored k) = some (uncount_live m, uncounted k)
advance m (uncounted k) = some (count_closed m, ready k)

abbrev pub System : Type 0
System = Machine Shared Thread

-- Any thread that is not finished may move.
abbrev pub Step : System → System → Type 0
Step = Threads.Step advance

-- `k` steps from `s`.
pub data Reach (s : System) : ℕ → System → Type 0 where
  here : Reach s 0 s
  next : {k : ℕ} {u v : System} → Reach s k u → Step u v → Reach s (suc k) v

abbrev pub statics : Shared
statics = record { fd_allocator = 1000; live_fds = 0; closed_fds = 0; listener_fd = 0 }

-- `main` up to the threads: the listener has the first descriptor.
abbrev pub start : ℕ → ℕ → System
start count rounds = record {
  shared = (let (fd, m) = alloc_fd statics in record m { listener_fd = fd });
  threads = replicate count (ready rounds);
}

-- All threads can be joined.
abbrev pub Finished : List Thread → Type 0
Finished [] = Unit
Finished (t ∷ ts) = (t ≡ ready 0) × Finished ts

-- `drop` of the listener.
abbrev pub drop_listener : Shared → Shared
drop_listener = close_fd

-- `main` after the joins.
unfoldable pub end_of_main : Shared → Outcome (Unit {0})
end_of_main m = do let leaked = (drop_listener m).live_fds; assert (ltb 0 leaked)
