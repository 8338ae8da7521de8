-- ===== src/Xous/Listener/Accounts.antt =====
-- The counters of 041 in every interleaving.
use security_audits.Base.{
  ℕ, zero, suc, ◌+◌, ◌*◌, ◌≤◌, ◌<◌, ◌≡◌, refl, ap, arith, List, [], ◌∷◌, some, length,
  length-append, length-replicate, total, total-append, total-replicate, total-le, done,
}
use security_audits.Base.Words.{u32_mod, usize_mod}
use security_audits.Base.Threads.{pick}
use security_audits.Xous.Listener.{
  Shared, Thread, ready, counted_stream, has_stream, counted_listener, has_listener, stored,
  uncounted, advance, System, Step, Reach, here, next, start, Finished, drop_listener, end_of_main,
}

-- The rounds that a thread has not finished.
abbrev pub rounds_left : Thread → ℕ
rounds_left (ready k) = k
rounds_left (counted_stream k) = suc k
rounds_left (has_stream k) = suc k
rounds_left (counted_listener k) = suc k
rounds_left (has_listener k fd) = suc k
rounds_left (stored k) = suc k
rounds_left (uncounted k) = suc k

-- What a round has added to `LIVE_FDS`, and to `FD_ALLOCATOR`, so far.
abbrev pub counted : Thread → ℕ
counted (ready k) = 0
counted (counted_stream k) = 1
counted (has_stream k) = 1
counted (counted_listener k) = 2
counted (has_listener k fd) = 2
counted (stored k) = 2
counted (uncounted k) = 1

abbrev pub allocated : Thread → ℕ
allocated (ready k) = 0
allocated (counted_stream k) = 0
allocated (has_stream k) = 1
allocated (counted_listener k) = 1
allocated (has_listener k fd) = 2
allocated (stored k) = 2
allocated (uncounted k) = 2

-- `rounds` is the number of all rounds of all threads.
pub record Accounts (count rounds : ℕ) (s : System) : Type 0 where
  pub threads_kept : length s.threads ≡ count
  pub live : s.shared.live_fds + total rounds_left s.threads ≡ 1 + rounds + total counted s.threads
  pub closed : s.shared.closed_fds + total rounds_left s.threads ≡ rounds
  pub fds :
      s.shared.fd_allocator + 2 * total rounds_left s.threads
      ≡ 1001 + 2 * rounds + total allocated s.threads

-- One operation moves the counters by what it moves the thread.
record Moved (m m' : Shared) (t t' : Thread) : Type 0 where
  live : m'.live_fds + rounds_left t' + counted t ≡ m.live_fds + rounds_left t + counted t'
  closed : m'.closed_fds + rounds_left t' ≡ m.closed_fds + rounds_left t
  fds :
      m'.fd_allocator + 2 * rounds_left t' + allocated t
      ≡ m.fd_allocator + 2 * rounds_left t + allocated t'

advance-Moved :
    (m m' : Shared) (t t' : Thread)
    → advance m t ≡ some (m', t')
    → m.live_fds + 1 < usize_mod
    → counted t ≤ m.live_fds
    → m.closed_fds + 1 < usize_mod
    → m.fd_allocator + 1 < u32_mod
    → Moved m m' t t'
unfolding advance
advance-Moved m m' (ready zero) t' e l p c f = ground arith
advance-Moved m m' (ready (suc k)) t' e l p c f = ground arith
advance-Moved m m' (counted_stream k) t' e l p c f = ground arith
advance-Moved m m' (has_stream k) t' e l p c f = ground arith
advance-Moved m m' (counted_listener k) t' e l p c f = ground arith
advance-Moved m m' (has_listener k fd) t' e l p c f = ground arith
advance-Moved m m' (stored k) t' e l p c f = ground arith
advance-Moved m m' (uncounted k) t' e l p c f = ground arith

-- The counters do not wrap.
abbrev pub Fits : ℕ → ℕ → Type 0
Fits count rounds = 1002 + 2 * rounds + 2 * count < u32_mod

counted-le : (t : Thread) → counted t ≤ 2
counted-le t = ground arith

allocated-le : (t : Thread) → allocated t ≤ 2
allocated-le t = ground arith

Step-Accounts :
    {count rounds : ℕ} {s u : System}
    → Fits count rounds
    → Step s u
    → Accounts count rounds s
    → Accounts count rounds u
Step-Accounts {count} {rounds} {s} {u} fits (pick before t after m t' at e eq) a = rw eq record {
  threads_kept = omega (
    arith,
    a.threads_kept,
    ap length at,
    length-append before (t ∷ after),
    length-append before (t' ∷ after),
  );
  live = omega (
    arith,
    live_here,
    moved.live,
    total-append counted before (t' ∷ after),
    total-append rounds_left before (t' ∷ after),
  );
  closed = omega (arith, closed_here, moved.closed, total-append rounds_left before (t' ∷ after));
  fds = omega (
    arith,
    fds_here,
    moved.fds,
    total-append allocated before (t' ∷ after),
    total-append rounds_left before (t' ∷ after),
  );
}
  where
    few : length s.threads ≤ count
    few = omega (arith, a.threads_kept)

    live_here :
        s.shared.live_fds + (total rounds_left before + (rounds_left t + total rounds_left after))
        ≡ 1 + rounds + (total counted before + (counted t + total counted after))
    live_here = omega (
      arith,
      a.live,
      ap (total counted) at,
      ap (total rounds_left) at,
      total-append counted before (t ∷ after),
      total-append rounds_left before (t ∷ after),
    )

    closed_here :
        s.shared.closed_fds + (total rounds_left before + (rounds_left t + total rounds_left after))
        ≡ rounds
    closed_here =
        omega
          (arith, a.closed, ap (total rounds_left) at, total-append rounds_left before (t ∷ after))

    fds_here :
        s.shared.fd_allocator
          + 2 * (total rounds_left before + (rounds_left t + total rounds_left after))
        ≡ 1001 + 2 * rounds + (total allocated before + (allocated t + total allocated after))
    fds_here = omega (
      arith,
      a.fds,
      ap (total allocated) at,
      ap (total rounds_left) at,
      total-append allocated before (t ∷ after),
      total-append rounds_left before (t ∷ after),
    )

    live_bound : s.shared.live_fds ≤ 1 + rounds + 2 * count
    live_bound = omega (arith, a.live, few, total-le counted 2 counted-le s.threads)

    fds_bound : s.shared.fd_allocator ≤ 1001 + 2 * rounds + 2 * count
    fds_bound = omega (arith, a.fds, few, total-le allocated 2 allocated-le s.threads)

    moved : Moved s.shared m t t'
    moved =
        advance-Moved s.shared m t t' e (omega (arith, live_bound, fits))
          (omega (arith, live_here, closed_here)) (omega (arith, closed_here, fits))
          (omega (arith, fds_bound, fits))

start-Accounts : (count rounds : ℕ) → Accounts count (count * rounds) (start count rounds)
start-Accounts count rounds = record {
  threads_kept = length-replicate count (ready rounds);
  live = omega (
    arith,
    total-replicate rounds_left count (ready rounds),
    total-replicate counted count (ready rounds),
  );
  closed = omega (arith, total-replicate rounds_left count (ready rounds));
  fds = omega (
    arith,
    total-replicate rounds_left count (ready rounds),
    total-replicate allocated count (ready rounds),
  );
}

Reach-Accounts :
    (count rounds : ℕ) {k : ℕ} {s : System}
    → Fits count (count * rounds)
    → Reach (start count rounds) k s
    → Accounts count (count * rounds) s
Reach-Accounts count rounds fits here = start-Accounts count rounds
Reach-Accounts count rounds fits (next r st) =
    Step-Accounts fits st (Reach-Accounts count rounds fits r)

Finished-total :
    (w : Thread → ℕ) → w (ready 0) ≡ 0 → (ts : List Thread) → Finished ts → total w ts ≡ 0
Finished-total w z [] f = refl
Finished-total w z (t ∷ ts) f = omega (arith, z, ap w f.0, Finished-total w z ts f.1)

-- In every interleaving of any number of threads and rounds whose descriptors can be counted, all
-- joined threads have allocated two descriptors for each round and closed one. Dropping the listener
-- leaves one live descriptor for each round: the assertion at the end of `main` holds whenever there
-- is a round, also if the threads run one after the other.
pub joined-leaks :
    (count rounds : ℕ) {k : ℕ} {s : System}
    → Fits count (count * rounds)
    → Reach (start count rounds) k s
    → Finished s.threads
    → (s.shared.fd_allocator ≡ 1001 + 2 * (count * rounds))
      × ((drop_listener s.shared).live_fds ≡ count * rounds)
      × ((drop_listener s.shared).closed_fds ≡ 1 + count * rounds)
      × (0 < count * rounds → end_of_main s.shared ≡ done tt)
unfolding end_of_main
joined-leaks count rounds {s = s} fits r f =
    let a = Reach-Accounts count rounds fits r in
    let none_left = Finished-total rounds_left refl s.threads f in
    let none_counted = Finished-total counted refl s.threads f in
    let none_allocated = Finished-total allocated refl s.threads f in
    let live : s.shared.live_fds ≡ 1 + count * rounds =
      omega (arith, a.live, none_left, none_counted) in
    let closed : s.shared.closed_fds ≡ count * rounds = omega (arith, a.closed, none_left) in
    let dropped : (drop_listener s.shared).live_fds ≡ count * rounds = omega (arith, live, fits) in
    (
      omega (arith, a.fds, none_left, none_allocated),
      dropped,
      omega (arith, closed, fits),
      λ some_round. rw dropped (ground arith),
    )
