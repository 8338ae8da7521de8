-- ===== src/Base/Runs.antt =====
-- Runs of a step relation, and what every step keeps.
use Prim.Native.Nat.{ℕ, suc, ◌+◌, ◌≤◌, ◌<◌}
use native.Mathlib.Omega.{arith}

module _ {ℓ κ} {S : Type ℓ} (Step : S → S → Type κ) where
  pub data Reach (s : S) : S → Type (ℓ ⊔ κ) where
    here : Reach s s
    next : {u v : S} → Reach s u → Step u v → Reach s v

  pub Step-Reach : {s u v : S} → Step s u → Reach u v → Reach s v
  Step-Reach st here = next here st
  Step-Reach st (next r st') = next (Step-Reach st r) st'

  pub Reach-append : {s u v : S} → Reach s u → Reach u v → Reach s v
  Reach-append r here = r
  Reach-append r (next q st) = next (Reach-append r q) st

  pub Reach-keeps {μ} :
      (Inv : S → Type μ)
      → ((u v : S) → Step u v → Inv u → Inv v)
      → {s u : S} → Reach s u
      → Inv s
      → Inv u
  Reach-keeps Inv kept here i = i
  Reach-keeps Inv kept (next {u} {v} r st) i = kept u v st (Reach-keeps Inv kept r i)

  -- The steps of a run.
  abbrev pub steps : {s u : S} → Reach s u → ℕ
  steps here = 0
  steps (next r st) = suc (steps r)

  -- Where every step lowers a measure, it bounds the length of a run.
  pub steps-le :
      (measure : S → ℕ)
      → ((u v : S) → Step u v → measure v < measure u)
      → {s u : S} (r : Reach s u) → steps r + measure u ≤ measure s
  steps-le measure lowers here = omega arith
  steps-le measure lowers (next {u} {v} r st) =
      omega (arith, steps-le measure lowers r, lowers u v st)
