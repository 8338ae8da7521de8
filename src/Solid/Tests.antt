-- ===== src/Solid/Tests.antt =====
-- Runs of the SOLID programs, and their theorems at concrete inputs.
use security_audits.Base.{
  ℕ, suc, ◌≡◌, refl, done, true, false, some, total, All, replicate, [], ◌∷◌,
}
use mathlib.Core.Option
use security_audits.Base.Runs.{here}
use security_audits.Base.Threads.{Machine, Reach, run, step_at, run-Reach}
use security_audits.Solid.SpinMutex.{new, sns_dsp}
use security_audits.Solid.SpinMutex.Bypass.{Reach-lost}
use security_audits.Solid.SpinMutex.Cores.{Call, inside, returned, spinning, core_step, calls}
use security_audits.Solid.SpinMutex.Exclusion.{holds, Reach-OneInside, Returned}
use security_audits.Solid.SpinMutex.Finish.{Reach-Finish}
use security_audits.Solid.SpinMutex.InTurn.{in_turn, Reach-in_turn}
use security_audits.Solid.RemoveDir.{
  buggy_remove_dir_all, fixed_remove_dir_all, remove_dir_all-length,
}
use security_audits.Solid.RemoveDir
use security_audits.Solid.Sockaddr
use security_audits.Solid.SpinMutex

mains_solid : (RemoveDir.main ≡ done tt) × (Sockaddr.main ≡ done tt) × (SpinMutex.main ≡ done tt)
unfolding RemoveDir.main Sockaddr.main SpinMutex.main
mains_solid = (refl, refl, refl)

-- Two cores call: at first the schedule, then what has been reached.
abbrev inside_both : Machine (SpinMutex.SpinMutex ℕ) (Call ℕ)
inside_both = record {
  shared = record { locked = true; data' = 7 };
  threads = inside true ∷ inside false ∷ [];
}

reaches-inside_both : Reach (core_step suc) (calls suc (false ∷ true ∷ []) (new 7)) inside_both
unfolding run step_at core_step sns_dsp Option.bind
reaches-inside_both = run-Reach (core_step suc) (0 ∷ 0 ∷ 1 ∷ []) _ here refl

Reach-OneInside_example : total holds inside_both.threads ≡ 1
Reach-OneInside_example = Reach-OneInside suc (false ∷ true ∷ []) 7 reaches-inside_both

abbrev both_over : Machine (SpinMutex.SpinMutex ℕ) (Call ℕ)
both_over = record { shared = new 9; threads = returned true ∷ returned true ∷ [] }

reaches-both_over : Reach (core_step suc) (calls suc (replicate 2 false) (new 7)) both_over
unfolding run step_at core_step sns_dsp Option.bind
reaches-both_over =
    run-Reach (core_step suc) (0 ∷ 1 ∷ 1 ∷ 0 ∷ 1 ∷ 1 ∷ 1 ∷ 0 ∷ 0 ∷ 0 ∷ 0 ∷ []) _ here refl

Reach-in_turn_example : in_turn suc 2 (new 7) ≡ some (new 9)
Reach-in_turn_example = Reach-in_turn suc 2 7 reaches-both_over (tt, (tt, tt))

abbrev one_spins : Machine (SpinMutex.SpinMutex ℕ) (Call ℕ)
one_spins = record {
  shared = record { locked = true; data' = 7 };
  threads = spinning ∷ inside true ∷ [];
}

reaches-one_spins : Reach (core_step suc) (calls suc (replicate 2 false) (new 7)) one_spins
unfolding run step_at core_step sns_dsp Option.bind
reaches-one_spins = run-Reach (core_step suc) (0 ∷ 1 ∷ 1 ∷ 0 ∷ []) _ here refl

Reach-Finish_example :
    (u : Machine (SpinMutex.SpinMutex ℕ) (Call ℕ)) × Reach (core_step suc) one_spins u
    × All Returned u.threads
    × (in_turn suc 2 (new 7) ≡ some u.shared)
Reach-Finish_example = Reach-Finish suc 2 7 one_spins reaches-one_spins

Reach-lost_example :
    Reach
      (core_step suc)
      (calls suc (false ∷ true ∷ []) (new 7))
      (record { shared = new 8; threads = returned true ∷ returned false ∷ [] })
Reach-lost_example = Reach-lost suc false 7
