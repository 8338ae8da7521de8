-- ===== src/Solid/SpinMutex/Exclusion.antt =====
-- The calls of 107 in every interleaving: who is inside, and what becomes of the data.
use security_audits.Base.{
  ℕ, ◌+◌, ◌≤◌, ◌≡◌, ◌∙◌, refl, sym, ap, arith, Bool, true, false, List, [], ◌∷◌, some, total,
  total-append, All, length,
}
use security_audits.Base.Runs.{here, next}
use security_audits.Base.Threads.{Machine, Step, pick, Reach}
use security_audits.Solid.SpinMutex.{SpinMutex, sns_dsp, new}
use security_audits.Solid.SpinMutex.Cores.{
  Call, calling, spinning, inside, holding, leaving, returned, core_step, calls,
}

abbrev pub bit : Bool → ℕ
bit true = 1
bit false = 0

pub bit_le : (b : Bool) → bit b ≤ 1
bit_le true = omega arith
bit_le false = omega arith

pub bit_free : (b : Bool) → bit b ≡ 0 → b ≡ false
bit_free true e = absurd (omega (arith, e))
bit_free false e = refl

module _ {ℓ} {T : Type ℓ} where
  -- Whether a call is inside with the lock taken.
  abbrev pub holds : Call T → ℕ
  holds (calling disabled) = 0
  holds spinning = 0
  holds (inside took) = bit took
  holds (holding took x) = bit took
  holds (leaving took) = bit took
  holds (returned took) = 0

  -- Whether it has written.
  abbrev pub wrote : Call T → ℕ
  wrote (calling disabled) = 0
  wrote spinning = 0
  wrote (inside took) = 0
  wrote (holding took x) = 0
  wrote (leaving took) = 1
  wrote (returned took) = 1

  -- It takes the lock, or has taken it.
  abbrev pub TakesLock : Call T → Type 0
  TakesLock (calling disabled) = disabled ≡ false
  TakesLock spinning = Unit
  TakesLock (inside took) = took ≡ true
  TakesLock (holding took x) = took ≡ true
  TakesLock (leaving took) = took ≡ true
  TakesLock (returned took) = took ≡ true

  -- What it has read is still the data.
  abbrev pub UpToDate : T → Call T → Type ℓ
  UpToDate y (holding took x) = x ≡ y
  UpToDate y (calling disabled) = Unit
  UpToDate y spinning = Unit
  UpToDate y (inside took) = Unit
  UpToDate y (leaving took) = Unit
  UpToDate y (returned took) = Unit

  -- A call outside is up to date, whatever the data.
  pub UpToDate_outside : (y : T) (t : Call T) → TakesLock t → holds t ≡ 0 → UpToDate y t
  UpToDate_outside y (calling b) h e = tt
  UpToDate_outside y spinning h e = tt
  UpToDate_outside y (inside b) h e = tt
  UpToDate_outside y (holding b x) h e = absurd ground (arith, h)
  UpToDate_outside y (leaving b) h e = tt
  UpToDate_outside y (returned b) h e = tt

  pub All_outside :
      (y : T) (ts : List (Call T)) → All TakesLock ts → total holds ts ≡ 0 → All (UpToDate y) ts
  All_outside y [] h e = tt
  All_outside y (t ∷ ts) h e =
      (UpToDate_outside y t h.0 (omega (arith, e)), All_outside y ts h.1 (omega (arith, e)))

  abbrev pub Returned : Call T → Type 0
  Returned (returned took) = Unit
  Returned (calling disabled) = ⊥
  Returned spinning = ⊥
  Returned (inside took) = ⊥
  Returned (holding took x) = ⊥
  Returned (leaving took) = ⊥

  pub Returned-totals :
      (ts : List (Call T)) → All Returned ts → (total holds ts ≡ 0) × (total wrote ts ≡ length ts)
  Returned-totals [] h = (refl, refl)
  Returned-totals (returned b ∷ ts) h =
      let (p, q) = Returned-totals ts h.1 in (omega (arith, p), omega (arith, q))
  Returned-totals (calling b ∷ ts) h = absurd h.0
  Returned-totals (spinning ∷ ts) h = absurd h.0
  Returned-totals (inside b ∷ ts) h = absurd h.0
  Returned-totals (holding b x ∷ ts) h = absurd h.0
  Returned-totals (leaving b ∷ ts) h = absurd h.0

module _ {ℓ} {T : Type ℓ} (f : T → T) where
  core_step-holds :
      (m m' : SpinMutex T) (t t' : Call T)
      → core_step f m t ≡ some (m', t')
      → holds t ≤ bit m.locked
      → bit m'.locked + holds t ≡ bit m.locked + holds t'
  unfolding core_step sns_dsp
  core_step-holds m m' (calling true) t' e h = ground arith
  core_step-holds m m' (calling false) t' e h = ground arith
  core_step-holds m m' spinning t' e h = ground arith
  core_step-holds m m' (inside took) t' e h = ground arith
  core_step-holds m m' (holding took x) t' e h = ground arith
  core_step-holds m m' (leaving true) t' e h = ground arith
  core_step-holds m m' (leaving false) t' e h = ground arith
  core_step-holds m m' (returned took) t' e h = ground arith

  abbrev pub OneInside : Machine (SpinMutex T) (Call T) → Type 0
  OneInside s = total holds s.threads ≡ bit s.shared.locked

  pub Step-OneInside :
      {s u : Machine (SpinMutex T) (Call T)} → Step (core_step f) s u → OneInside s → OneInside u
  Step-OneInside {s} {u} (pick before t after m t' at e eq) one =
      let held : total holds before + (holds t + total holds after) ≡ bit s.shared.locked =
        sym (total-append holds before (t ∷ after)) ∙ ap (total holds) (sym at) ∙ one in
      rw eq (
        omega (
          arith,
          held,
          total-append holds before (t' ∷ after),
          core_step-holds s.shared m t t' e (omega (arith, held)),
        ))

  pub holds-calls :
      (disabled : List Bool) (m : SpinMutex T) → total holds (calls f disabled m).threads ≡ 0
  holds-calls [] m = refl
  holds-calls (b ∷ bs) m = omega (arith, holds-calls bs m)

  -- In every interleaving, whatever the cores say of their dispatchers, one call that has taken the lock
  -- is inside while the lock is held, and none while it is free. The calls that have not taken it do not
  -- count.
  pub Reach-OneInside :
      (disabled : List Bool) (x : T) {s : Machine (SpinMutex T) (Call T)}
      → Reach (core_step f) (calls f disabled (new x)) s
      → OneInside s
  Reach-OneInside disabled x here = holds-calls disabled (new x)
  Reach-OneInside disabled x (next r st) = Step-OneInside st (Reach-OneInside disabled x r)
