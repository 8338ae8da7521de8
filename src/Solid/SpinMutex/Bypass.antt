-- ===== src/Solid/SpinMutex/Bypass.antt =====
-- A call of 107 that enters without the lock, beside another one.
use security_audits.Base.{ℕ, refl, Bool, true, false, not, List, [], ◌∷◌}
use security_audits.Base.Runs.{here}
use security_audits.Base.Threads.{Reach, run, step_at, run-Reach}
use mathlib.Core.Option
use security_audits.Solid.SpinMutex.{sns_dsp, new}
use security_audits.Solid.SpinMutex.Cores.{returned, core_step, calls}

module _ {ℓ} {T : Type ℓ} (f : T → T) where
  abbrev schedule : Bool → List ℕ
  schedule false = 0 ∷ 0 ∷ 0 ∷ 1 ∷ 1 ∷ 1 ∷ 1 ∷ 0 ∷ 0 ∷ []
  schedule true = 0 ∷ 0 ∷ 1 ∷ 1 ∷ 1 ∷ 1 ∷ 0 ∷ 0 ∷ []

  -- Two calls, the second with its dispatcher disabled, can both return with the change made once: the
  -- other's is lost, also where the other has taken the lock.
  pub Reach-lost :
      (disabled : Bool) (x : T)
      → Reach
          (core_step f)
          (calls f (disabled ∷ true ∷ []) (new x))
          (record { shared = new (f x); threads = returned (not disabled) ∷ returned false ∷ [] })
  unfolding run step_at core_step sns_dsp Option.bind
  Reach-lost false x = run-Reach (core_step f) (schedule false) _ here refl
  Reach-lost true x = run-Reach (core_step f) (schedule true) _ here refl
