-- ===== src/Sync/TimedRace/Flag.antt =====
-- What the flag of the waiter of 067 says, and who is under its lock.
use security_audits.Base.{
  ℕ, ◌+◌, ◌-◌, ◌≤◌, ◌<◌, ◌≡◌, refl, sym, subst, arith, Bool, true, false, some,
}
use security_audits.Base.Runs.{Reach-keeps}
use security_audits.Sync.TimedRace.{main_timed}
use security_audits.Sync.TimedRace.{
  millis, Waiter, starting, locking, measuring, checking, waiting, relocking, returned, ended,
  Notifier, sleeping, taking, holding, dropping, notifying, joining, concluded, State, waiter_next,
  notifier_next, Step, passes, waiter_moves, notifier_moves, Reach,
}

abbrev pub bit : Bool → ℕ
bit true = 1
bit false = 0

-- Whether a thread is under the lock.
abbrev pub waiter_inside : Waiter → ℕ
waiter_inside starting = 0
waiter_inside (locking o) = 0
waiter_inside (measuring o) = 1
waiter_inside (checking o b) = 1
waiter_inside (waiting o b) = 0
waiter_inside (relocking o b) = 0
waiter_inside (returned o r) = 0
waiter_inside (ended r e) = 0

abbrev pub notifier_inside : Notifier → ℕ
notifier_inside (sleeping t) = 0
notifier_inside taking = 0
notifier_inside (holding t) = 1
notifier_inside dropping = 1
notifier_inside notifying = 0
notifier_inside joining = 0
notifier_inside (concluded o) = 0

-- The flag, once returned: the value has been set, or the time is over.
abbrev pub Says : Bool → Bool → ℕ → Type 0
Says true value elapsed = millis 20 < elapsed
Says false value elapsed = value ≡ true

abbrev pub Flagged : Waiter → ℕ → Bool → Type 0
Flagged starting clock value = Unit
Flagged (locking o) clock value = o ≤ clock
Flagged (measuring o) clock value = o ≤ clock
Flagged (checking o b) clock value = (o ≤ b) × (b ≤ clock)
Flagged (waiting o b) clock value = (o ≤ b) × (b ≤ clock)
Flagged (relocking o b) clock value = (o ≤ b) × (b ≤ clock)
Flagged (returned o r) clock value = (o ≤ clock) × Says r value (clock - o)
Flagged (ended r e) clock value = Says r value e

-- `main` judges what the waiter ended with.
abbrev pub Judges : Notifier → Waiter → Type 0
Judges (concluded outcome) (ended r e) = outcome ≡ main_timed r e
Judges (concluded outcome) starting = ⊥
Judges (concluded outcome) (locking o) = ⊥
Judges (concluded outcome) (measuring o) = ⊥
Judges (concluded outcome) (checking o b) = ⊥
Judges (concluded outcome) (waiting o b) = ⊥
Judges (concluded outcome) (relocking o b) = ⊥
Judges (concluded outcome) (returned o r) = ⊥
Judges (sleeping t) w = Unit
Judges taking w = Unit
Judges (holding t) w = Unit
Judges dropping w = Unit
Judges notifying w = Unit
Judges joining w = Unit

-- `main` sets the value before it drops the lock.
abbrev pub Set : Notifier → Bool → Type 0
Set (sleeping t) value = Unit
Set taking value = Unit
Set (holding t) value = Unit
Set dropping value = value ≡ true
Set notifying value = value ≡ true
Set joining value = value ≡ true
Set (concluded outcome) value = value ≡ true

pub record Good (s : State) : Type 0 where
  pub exclusive : waiter_inside s.waiter + notifier_inside s.notifier ≡ bit s.locked
  pub flagged : Flagged s.waiter s.clock s.value
  pub judges : Judges s.notifier s.waiter
  pub set : Set s.notifier s.value

waiter_next-Good :
    (w : Waiter) (s u : State) → waiter_next w s ≡ some u → s.waiter ≡ w → Good s → Good u
unfolding waiter_next
waiter_next-Good starting s u e h g = ground arith
waiter_next-Good (locking o) s u e h g = ground arith
waiter_next-Good (measuring o) s u e h g = ground arith
waiter_next-Good (waiting o b) s u e h g = ground arith
waiter_next-Good (relocking o b) s u e h g = ground arith
waiter_next-Good (returned o true) s u e h g = ground arith
waiter_next-Good (returned o false) s u e h g = ground arith
waiter_next-Good (ended r x) s u e h g = ground arith
waiter_next-Good (checking o b) s u e h g = ground arith

notifier_next-Good :
    (n : Notifier) (s u : State) → notifier_next n s ≡ some u → s.notifier ≡ n → Good s → Good u
unfolding notifier_next
notifier_next-Good (sleeping t) s u e h g = ground arith
notifier_next-Good taking s u e h g = ground arith
notifier_next-Good (holding t) s u e h g = ground arith
notifier_next-Good dropping s u e h g = ground arith
notifier_next-Good notifying s u e h g = ground arith
notifier_next-Good joining s u e h g = ground arith
notifier_next-Good (concluded o) s u e h g = ground arith

Flagged-later :
    (w : Waiter) (clock d : ℕ) (value : Bool) → Flagged w clock value → Flagged w (clock + d) value
Flagged-later starting clock d value f = ground arith
Flagged-later (locking o) clock d value f = ground arith
Flagged-later (measuring o) clock d value f = ground arith
Flagged-later (checking o b) clock d value f = ground arith
Flagged-later (waiting o b) clock d value f = ground arith
Flagged-later (relocking o b) clock d value f = ground arith
Flagged-later (returned o true) clock d value f = ground arith
Flagged-later (returned o false) clock d value f = ground arith
Flagged-later (ended r e) clock d value f = f

pub Step-Good : (s u : State) → Step s u → Good s → Good u
Step-Good s u (passes d e) g = subst Good (sym e) record {
  exclusive = g.exclusive;
  flagged = Flagged-later s.waiter s.clock d s.value g.flagged;
  judges = g.judges;
  set = g.set;
}
Step-Good s u (waiter_moves e) g = waiter_next-Good s.waiter s u e refl g
Step-Good s u (notifier_moves e) g = notifier_next-Good s.notifier s u e refl g

pub Reach-Good : {s : State} → Reach s → Good s
Reach-Good r =
    Reach-keeps Step Good Step-Good r
      record { exclusive = refl; flagged = tt; judges = tt; set = tt }

-- In every run, once the waiter has its flag, either it is not set and `main` has set the value, however long
-- that took, or it is set and more than 20 milliseconds have passed.
pub Reach-Says :
    (timed_out : Bool) (elapsed : ℕ) {s : State}
    → Reach s
    → s.waiter ≡ ended timed_out elapsed
    → Says timed_out s.value elapsed
Reach-Says timed_out elapsed {s} r e =
    subst (λ w. Flagged w s.clock s.value) e (Reach-Good r).flagged

-- In every run, whichever of the two is under the lock is there alone, and the lock is free when neither is.
pub Reach-exclusive :
    {s : State} → Reach s → waiter_inside s.waiter + notifier_inside s.notifier ≡ bit s.locked
Reach-exclusive r = (Reach-Good r).exclusive
