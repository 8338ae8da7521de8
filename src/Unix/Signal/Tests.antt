-- ===== src/Unix/Signal/Tests.antt =====
-- The theorems on 123 at a run in which the signal has been sent.
use security_audits.Base.{◌≤◌, ◌≡◌, ◌⊎◌}
use security_audits.Base.Runs.{steps}
use security_audits.Unix.ReadFile.{eintr}
use security_audits.Unix.Interrupted.{Verdict, triggered}
use security_audits.Unix.Signal.{linux, State, Step, printed}
use security_audits.Unix.Signal.Outcomes.{IsEnd, Reach-IsEnd}
use security_audits.Unix.Signal.Either.{sent, Reach-sent}

Reach-IsEnd_example :
    (steps (Step linux 7) (Reach-sent linux 7) ≤ 12)
    × ((v : Verdict) → (sent 7).main ≡ printed v → v ≡ triggered eintr)
    × (IsEnd (sent 7) ⊎ ((u : State) × Step linux 7 (sent 7) u))
Reach-IsEnd_example = Reach-IsEnd linux 7 (Reach-sent linux 7)
