-- ===== src/Sync/TimedRace/Tests.antt =====
-- The theorems on 067 at a run whose flag is set.
use security_audits.Base.{◌+◌, ◌≡◌, ◌<◌, true, false, refl, Outcome, done}
use security_audits.Base.Runs
use security_audits.Base.Runs.{here}
use security_audits.Sync.TimedRace.{main_timed}
use security_audits.Sync.TimedRace.{millis, State, Step, Reach, start, concluded}
use security_audits.Sync.TimedRace.Flag.{
  bit, waiter_inside, notifier_inside, Reach-Says, Reach-exclusive,
}
use security_audits.Sync.TimedRace.Outcomes.{over, Reach-failed, Reach-late}
use security_audits.Sync.TimedRace.Finish.{Reach-judged}

Reach-Says_example : millis 20 < millis 60
Reach-Says_example = Reach-Says true (millis 60) Reach-failed.1.0 refl

Reach-exclusive_example :
    waiter_inside (over true (millis 60) (millis 140)).waiter
      + notifier_inside (over true (millis 60) (millis 140)).notifier
    ≡ bit (over true (millis 60) (millis 140)).locked
Reach-exclusive_example = Reach-exclusive Reach-failed.1.0

Reach-judged_example :
    (u : State) × (o : Outcome (Unit {0})) × Runs.Reach Step start u × (u.notifier ≡ concluded o)
Reach-judged_example = Reach-judged start here

Reach-late_example :
    Reach (over false (millis 85 + 5) (millis 85 + 5))
    × (main_timed false (millis 85 + 5) ≡ done tt)
Reach-late_example = Reach-late 5
