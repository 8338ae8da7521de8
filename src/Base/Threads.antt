-- ===== src/Base/Threads.antt =====
-- Threads over a shared state: each has a next operation or is over, and any of them may take its own.
use mathlib.Core.Path.{◌≡◌, refl, ap, sym, subst, ◌∙◌}
use mathlib.Core.Option.{Option, none, some}
use mathlib.Core.Option
use mathlib.Core.List.{List, [], ◌∷◌, ◌++◌}
use Prim.Native.Nat.{ℕ, zero, suc}
use native.Mathlib.Omega.{arith}
use security_audits.Base.Runs
use security_audits.Base.Runs.{here, next}
use security_audits.Base.Lists.{length, length-append}

pub record Machine {ℓ κ} (M : Type ℓ) (T : Type κ) : Type (ℓ ⊔ κ) where
  pub shared : M
  pub threads : List T

module _ {ℓ κ} {M : Type ℓ} {T : Type κ} (advance : M → T → Option (M × T)) where
  pub data Step (s u : Machine M T) : Type (ℓ ⊔ κ) where
    pick :
        (before : List T) (t : T) (after : List T) (m : M) (t' : T)
        → s.threads ≡ before ++ t ∷ after
        → advance s.shared t ≡ some (m, t')
        → u ≡ record { shared = m; threads = before ++ t' ∷ after }
        → Step s u

  abbrev pub Reach : Machine M T → Machine M T → Type (ℓ ⊔ κ)
  Reach = Runs.Reach Step

  Step-length : {u v : Machine M T} → Step u v → length v.threads ≡ length u.threads
  Step-length {u} {v} (pick before t after m t' at e eq) =
      rw at
        (rw eq (omega (arith, length-append before (t ∷ after), length-append before (t' ∷ after))))

  pub Reach-length : {s u : Machine M T} → Reach s u → length u.threads ≡ length s.threads
  Reach-length here = refl
  Reach-length (next r st) = Step-length st ∙ Reach-length r

  -- The thread at a position takes its step.
  unfoldable pub step_at : ℕ → M → List T → Option (Machine M T)
  step_at i m [] = none
  step_at zero m (t ∷ ts) =
      Option.map (λ (p : M × T). record { shared = p.0; threads = p.1 ∷ ts }) (advance m t)
  step_at (suc i) m (t ∷ ts) =
      Option.map (λ (v : Machine M T). record { shared = v.shared; threads = t ∷ v.threads })
        (step_at i m ts)

  -- The threads take steps in the order of a schedule.
  unfoldable pub run : List ℕ → Machine M T → Option (Machine M T)
  run [] s = some s
  run (i ∷ is) s = Option.bind (step_at i s.shared s.threads) (run is)

  behind :
      {m : M} {ts : List T} {v : Machine M T} (t : T)
      → Step (record { shared = m; threads = ts }) v
      → Step
          (record { shared = m; threads = t ∷ ts })
          (record { shared = v.shared; threads = t ∷ v.threads })
  behind t (pick before t₁ after m t' at e eq) =
      pick (t ∷ before) t₁ after m t' (ap (◌∷◌ t) at) e
        (ap (λ (w : Machine M T). record { shared = w.shared; threads = t ∷ w.threads }) eq)

  step_at-Step :
      (i : ℕ) (m : M) (ts : List T) (v : Machine M T)
      → step_at i m ts ≡ some v
      → Step (record { shared = m; threads = ts }) v
  unfolding step_at
  step_at-Step i m [] v e = absurd cc
  step_at-Step zero m (t ∷ ts) v e =
      let (q, at, made) = (Option.map-eq-some_iff _ (advance m t)).0 e in
      pick [] t ts q.0 q.1 refl at (sym made)
  step_at-Step (suc i) m (t ∷ ts) v e =
      let (w, at, made) = (Option.map-eq-some_iff _ (step_at i m ts)).0 e in
      subst (Step (record { shared = m; threads = t ∷ ts })) made
        (behind t (step_at-Step i m ts w at))

  pub run-Reach :
      (is : List ℕ) (s : Machine M T) {u v : Machine M T}
      → Reach s u
      → run is u ≡ some v
      → Reach s v
  unfolding run
  run-Reach [] s r e = subst (Reach s) (Option.some_inj.0 e) r
  run-Reach (i ∷ is) s {u} {v} r e =
      let (w, at, rest) = (Option.bind-eq-some_iff (step_at i u.shared u.threads) (run is)).0 e in
      run-Reach is s (next r (step_at-Step i u.shared u.threads w at)) rest
