-- ===== src/Xous/Listener/Progress.antt =====
-- No schedule of 041 blocks or runs on: there is a step as long as a thread is not finished, and every
-- step is one of the seven of a round.
use security_audits.Base.{
  ℕ, zero, suc, ◌+◌, ◌*◌, ◌≡◌, refl, ap, arith, List, [], ◌∷◌, ◌++◌, some, ◌⊎◌, inl, inr, total,
  total-append, total-replicate,
}
use security_audits.Base.Threads.{pick}
use security_audits.Xous.Listener.{
  Shared, Thread, ready, counted_stream, has_stream, counted_listener, has_listener, stored,
  uncounted, advance, System, Step, Reach, here, next, start, Finished,
}

-- The operations that a thread still has to do.
abbrev pub operations : Thread → ℕ
operations (ready k) = 7 * k
operations (counted_stream k) = 7 * k + 6
operations (has_stream k) = 7 * k + 5
operations (counted_listener k) = 7 * k + 4
operations (has_listener k fd) = 7 * k + 3
operations (stored k) = 7 * k + 2
operations (uncounted k) = 7 * k + 1

advance-operations :
    (m m' : Shared) (t t' : Thread)
    → advance m t ≡ some (m', t')
    → suc (operations t') ≡ operations t
unfolding advance
advance-operations m m' (ready zero) t' e = ground arith
advance-operations m m' (ready (suc k)) t' e = ground arith
advance-operations m m' (counted_stream k) t' e = ground arith
advance-operations m m' (has_stream k) t' e = ground arith
advance-operations m m' (counted_listener k) t' e = ground arith
advance-operations m m' (has_listener k fd) t' e = ground arith
advance-operations m m' (stored k) t' e = ground arith
advance-operations m m' (uncounted k) t' e = ground arith

Step-operations :
    {s u : System} → Step s u → suc (total operations u.threads) ≡ total operations s.threads
Step-operations {s} {u} (pick before t after m t' at e eq) = omega (
  arith,
  ap (λ (v : System). total operations v.threads) eq,
  ap (total operations) at,
  advance-operations s.shared m t t' e,
  total-append operations before (t ∷ after),
  total-append operations before (t' ∷ after),
)

Reach-operations :
    {s u : System} {k : ℕ}
    → Reach s k u
    → k + total operations u.threads ≡ total operations s.threads
Reach-operations here = omega arith
Reach-operations (next r st) = omega (arith, Reach-operations r, Step-operations st)

-- A thread is finished or can move.
Thread-moves :
    (m : Shared) (t : Thread)
    → (t ≡ ready 0) ⊎ ((m' : Shared) × (t' : Thread) × (advance m t ≡ some (m', t')))
unfolding advance
Thread-moves m (ready zero) = inl refl
Thread-moves m (ready (suc k)) = inr (_, _, refl)
Thread-moves m (counted_stream k) = inr (_, _, refl)
Thread-moves m (has_stream k) = inr (_, _, refl)
Thread-moves m (counted_listener k) = inr (_, _, refl)
Thread-moves m (has_listener k fd) = inr (_, _, refl)
Thread-moves m (stored k) = inr (_, _, refl)
Thread-moves m (uncounted k) = inr (_, _, refl)

-- Where the first thread that can move stands.
record Movable (m : Shared) (ts : List Thread) : Type 0 where
  before : List Thread
  t : Thread
  after : List Thread
  m' : Shared
  t' : Thread
  at : ts ≡ before ++ t ∷ after
  moves : advance m t ≡ some (m', t')

Threads-move : (m : Shared) (ts : List Thread) → Finished ts ⊎ Movable m ts
Threads-move m [] = inl tt
Threads-move m (t ∷ ts) = elim (Thread-moves m t) [
  | inr (m', t', e) ↦
      inr record { before = []; t = t; after = ts; m' = m'; t' = t'; at = refl; moves = e }
  | inl e ↦ elim (Threads-move m ts) [
    | inl f ↦ inl (e, f)
    | inr v ↦ inr record {
      before = t ∷ v.before;
      t = v.t;
      after = v.after;
      m' = v.m';
      t' = v.t';
      at = ap (λ xs. t ∷ xs) v.at;
      moves = v.moves;
    }
  ]
]

-- In every state that a schedule reaches, all threads are finished or some thread can move, and the
-- steps so far and the operations to come make seven for each round: every schedule ends, after that
-- many steps.
pub schedule_ends :
    (count rounds : ℕ) {k : ℕ} {s : System}
    → Reach (start count rounds) k s
    → (k + total operations s.threads ≡ 7 * (count * rounds))
      × (Finished s.threads ⊎ ((u : System) × Step s u))
schedule_ends count rounds {s = s} r = (
  omega (arith, Reach-operations r, total-replicate operations count (ready rounds), seven),
  elim (Threads-move s.shared s.threads) [
    | inl f ↦ inl f
    | inr v ↦ inr (_, pick v.before v.t v.after v.m' v.t' v.at v.moves refl)
  ],
)
  where
    seven : count * (7 * rounds) ≡ 7 * (count * rounds)
    seven = grind arith
