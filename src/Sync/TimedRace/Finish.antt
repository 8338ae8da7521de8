-- ===== src/Sync/TimedRace/Finish.antt =====
-- How the threads of 067 go on from where they have been stopped.
use security_audits.Base.{ℕ, zero, suc, ◌≤◌, ◌≡◌, refl, inl, inr, arith, Outcome}
use security_audits.Base.Runs
use security_audits.Base.Runs.{here, next, Reach-keeps, Reach-append}
use security_audits.Sync.TimedRace.{concluded, State, Step, Reach}
use security_audits.Sync.TimedRace.Flag.{Good, Step-Good, Reach-Good}
use security_audits.Sync.TimedRace.Progress.{left, move-Progress}

record Finish (s : State) : Type 0 where
  last : State
  run : Runs.Reach Step s last
  outcome : Outcome (Unit {0})
  is : last.notifier ≡ concluded outcome

finish : (k : ℕ) (s : State) → Good s → left s ≤ k → Finish s
finish zero s g h = elim (move-Progress s.notifier s refl g) [
  | inl (o, e) ↦ record { last = s; run = here; outcome = o; is = e }
  | inr p ↦ absurd (omega (arith, h, p.less))
]
finish (suc k) s g h = elim (move-Progress s.notifier s refl g) [
  | inl (o, e) ↦ record { last = s; run = here; outcome = o; is = e }
  | inr p ↦
      let f =
        finish k p.last (Reach-keeps Step Good Step-Good p.run g) (omega (arith, h, p.less)) in
      record { last = f.last; run = Reach-append Step p.run f.run; outcome = f.outcome; is = f.is }
]

-- Wherever the threads have been stopped, they can go on until `main` has judged the waiter's flag: neither
-- waits for ever for the other.
pub Reach-judged :
    (s : State)
    → Reach s
    → (u : State) × (o : Outcome (Unit {0})) × Runs.Reach Step s u × (u.notifier ≡ concluded o)
Reach-judged s r =
    let f = finish (left s) s (Reach-Good r) (omega arith) in (f.last, f.outcome, f.run, f.is)
