-- ===== src/Solid/SpinMutex/Cores.antt =====
-- Calls of `with_locked_buggy` (107) on several cores: each atomic operation, and each access of the data,
-- is a step. What `sns_dsp` says to a call is part of it.
use security_audits.Base.{◌==◌, Bool, true, false, List, map, Option, none, some, if◌then◌else◌}
use security_audits.Base.Threads.{Machine}
use security_audits.Solid.SpinMutex.{SpinMutex, sns_dsp}

-- Where a call stands: `took_lock`, and what the closure has read.
pub data Call {ℓ} (T : Type ℓ) : Type ℓ where
  calling : Bool → Call T
  spinning : Call T
  inside : Bool → Call T
  holding : Bool → T → Call T
  leaving : Bool → Call T
  returned : Bool → Call T

module _ {ℓ} {T : Type ℓ} (f : T → T) where
  -- The next operation of a call whose closure changes the data by `f`. A swap that finds the lock
  -- taken is tried again.
  unfoldable pub core_step : SpinMutex T → Call T → Option (SpinMutex T × Call T)
  unfolding sns_dsp
  core_step m (calling disabled) =
      if sns_dsp disabled == 0 then some (m, spinning) else some (m, inside false)
  core_step m spinning =
      some (record m { locked = true }, (if m.locked then spinning else inside true))
  core_step m (inside took) = some (m, holding took m.data')
  core_step m (holding took x) = some (record m { data' = f x }, leaving took)
  core_step m (leaving true) = some (record m { locked = false }, returned true)
  core_step m (leaving false) = some (m, returned false)
  core_step m (returned took) = none

  -- One call for each answer of `sns_dsp`.
  abbrev pub calls : List Bool → SpinMutex T → Machine (SpinMutex T) (Call T)
  calls disabled m = record { shared = m; threads = map calling disabled }
