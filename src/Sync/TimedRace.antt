-- ===== src/Sync/TimedRace.antt =====
-- rust-stdlib/pocs/067-timeout-result-discarded-in-wait-timeout-while.rs: `main` and its waiter on one lock and
-- one clock, in nanoseconds. Each operation is a step, and so is the passing of time. A wait may end at any
-- time, as a condition variable may.
pub mod Finish
pub mod Flag
pub mod Outcomes
pub mod Progress
mod Tests
use mathlib.Core.Option
use security_audits.Base.{
  ℕ, ◌+◌, ◌-◌, ◌*◌, ◌≡◌, Bool, true, false, Option, none, some, leb, if◌then◌else◌, Outcome, ◌>>◌,
  assert, not,
}
use security_audits.Base.Runs

-- `Duration::checked_sub`.
abbrev pub checked_sub : ℕ → ℕ → Option ℕ
checked_sub a b = if leb b a then some (a - b) else none

-- `main` after the join, with the waiter's flag and the time that it took.
unfoldable pub main_timed : Bool → ℕ → Outcome (Unit {0})
main_timed timed_out elapsed = do assert (leb 50000000 elapsed); assert (not timed_out)

-- `Duration::from_millis`.
abbrev pub millis : ℕ → ℕ
millis n = n * 1000000

-- Where the waiter stands, with its own `start` and that of the call.
pub data Waiter : Type 0 where
  starting : Waiter
  locking : ℕ → Waiter
  measuring : ℕ → Waiter
  checking : ℕ → ℕ → Waiter
  waiting : ℕ → ℕ → Waiter
  relocking : ℕ → ℕ → Waiter
  returned : ℕ → Bool → Waiter
  ended : Bool → ℕ → Waiter

-- Where `main` stands after the spawn, with the time since which it sleeps.
pub data Notifier : Type 0 where
  sleeping : ℕ → Notifier
  taking : Notifier
  holding : ℕ → Notifier
  dropping : Notifier
  notifying : Notifier
  joining : Notifier
  concluded : Outcome (Unit {0}) → Notifier

pub record State : Type 0 where
  pub clock : ℕ
  pub locked : Bool
  pub value : Bool
  pub waiter : Waiter
  pub notifier : Notifier

-- A check of the condition, with the time that is left for a wait.
abbrev pub check : ℕ → ℕ → Bool → Option ℕ → State → State
check o start true timeout s = record s { locked = false; waiter = returned o false }
check o start false none s = record s { locked = false; waiter = returned o true }
check o start false (some timeout) s = record s { locked = false; waiter = waiting o start }

-- The next operation of the waiter; a lock that is held is waited for.
unfoldable pub waiter_next : Waiter → State → Option State
waiter_next starting s = some (record s { waiter = locking s.clock })
waiter_next (locking o) s =
    if s.locked then none else some (record s { locked = true; waiter = measuring o })
waiter_next (measuring o) s = some (record s { waiter = checking o s.clock })
waiter_next (checking o start) s =
    some (check o start s.value (checked_sub (millis 20) (s.clock - start)) s)
waiter_next (waiting o start) s = some (record s { waiter = relocking o start })
waiter_next (relocking o start) s =
    if s.locked then none else some (record s { locked = true; waiter = checking o start })
waiter_next (returned o timed_out) s = some (record s { waiter = ended timed_out (s.clock - o) })
waiter_next (ended timed_out elapsed) s = none

-- `main` after the join, from the waiter as it stands.
abbrev pub joined_with : Waiter → State → Option State
joined_with (ended timed_out elapsed) s =
    some (record s { notifier = concluded (main_timed timed_out elapsed) })
joined_with starting s = none
joined_with (locking o) s = none
joined_with (measuring o) s = none
joined_with (checking o start) s = none
joined_with (waiting o start) s = none
joined_with (relocking o start) s = none
joined_with (returned o timed_out) s = none

-- The next operation of `main`. A sleep takes its time or more; the second one is under the lock.
unfoldable pub notifier_next : Notifier → State → Option State
notifier_next (sleeping since) s =
    if leb (millis 5) (s.clock - since) then some (record s { notifier = taking }) else none
notifier_next taking s =
    if s.locked then none else some (record s { locked = true; notifier = holding s.clock })
notifier_next (holding since) s =
    if leb (millis 80) (s.clock - since)
    then some (record s { value = true; notifier = dropping })
    else none
notifier_next dropping s = some (record s { locked = false; notifier = notifying })
notifier_next notifying s = some (record s { notifier = joining })
notifier_next joining s = joined_with s.waiter s
notifier_next (concluded outcome) s = none

abbrev pub start : State
start = record {
  clock = 0;
  locked = false;
  value = false;
  waiter = starting;
  notifier = sleeping 0;
}

pub data Step (s u : State) : Type 0 where
  passes : (d : ℕ) → u ≡ record s { clock = s.clock + d } → Step s u
  waiter_moves : waiter_next s.waiter s ≡ some u → Step s u
  notifier_moves : notifier_next s.notifier s ≡ some u → Step s u

abbrev pub Reach : State → Type 0
Reach = Runs.Reach Step start
