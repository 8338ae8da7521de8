-- ===== src/Solid/SpinMutex.antt =====
-- rust-stdlib/pocs/107-spin-mutex-bypasses-inter-core-lock.rs: the lock that a disabled dispatcher skips.
-- Here one core runs, and a spin on a lock that is held does not return; `Cores` has several.
pub mod Bypass
pub mod Cores
pub mod Exclusion
pub mod Finish
pub mod InTurn
use security_audits.Base.{
  ℕ, ◌≡◌, refl, Bool, true, false, not, ◌==◌, Option, none, some, Outcome, ◌>>◌, assert, panic,
  if◌then◌else◌,
}

unfoldable pub sns_dsp : Bool → ℕ
sns_dsp fake_dsp_disabled = if fake_dsp_disabled then 1 else 0

pub record SpinMutex {ℓ} (T : Type ℓ) : Type ℓ where
  pub locked : Bool
  pub data' : T

abbrev pub new {ℓ} : {T : Type ℓ} → T → SpinMutex T
new x = record { locked = false; data' = x }

-- The result, whether the lock was taken, and the mutex afterwards; `none` where the spin does not end.
unfoldable pub with_locked_buggy {ℓ κ} :
    {T : Type ℓ} {R : Type κ} → Bool → (T → R × T) → SpinMutex T → Option (R × Bool × SpinMutex T)
unfolding sns_dsp
with_locked_buggy fake_dsp_disabled f m =
    let (r, x) = f m.data' in
    if sns_dsp fake_dsp_disabled == 0
    then (if m.locked then none else some (r, true, record { locked = false; data' = x }))
    else some (r, false, record { locked = m.locked; data' = x })

unfoldable pub main : Outcome (Unit {0})
unfolding with_locked_buggy
main = elim (with_locked_buggy {R = ℕ} true (λ (x : ℕ). (42, 42)) (new 0)) [
  | none ↦ panic
  | some (v, took, m) ↦ do assert (not took); assert (not m.locked)
]

-- The closure runs and its data is kept whenever the call returns. It returns without the lock exactly
-- where the dispatcher is disabled, even while another core holds it; otherwise it waits for the lock.
pub with_locked-cases {ℓ κ} :
    {T : Type ℓ} {R : Type κ} (f : T → R × T) (locked' : Bool) (x : T)
    → (with_locked_buggy true f (record { locked = locked'; data' = x })
        ≡ some ((f x).0, false, record { locked = locked'; data' = (f x).1 }))
      × (with_locked_buggy false f (record { locked = true; data' = x }) ≡ none)
      × (with_locked_buggy false f (record { locked = false; data' = x })
          ≡ some ((f x).0, true, record { locked = false; data' = (f x).1 }))
unfolding with_locked_buggy sns_dsp
with_locked-cases f locked' x = (refl, refl, refl)
