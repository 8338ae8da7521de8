-- ===== src/Solid/SpinMutex/InTurn.antt =====
-- The data of 107 while every core's dispatcher is enabled.
use security_audits.Base.{
  ℕ, zero, suc, ◌+◌, ◌≤◌, ◌≡◌, ◌∙◌, refl, sym, ap, ap₂, subst, arith, Bool, true, false, List, ◌∷◌,
  ◌++◌, Option, some, ◌⊎◌, inl, inr, if◌then◌else◌, total, total-append, All, All-append, All_parts,
  length, replicate,
}
use mathlib.Core.Option
use security_audits.Base.Runs.{here, next}
use security_audits.Base.Threads.{Machine, Step, pick, Reach, Reach-length}
use security_audits.Solid.SpinMutex.{SpinMutex, sns_dsp, with_locked_buggy, new}
use security_audits.Solid.SpinMutex.Cores.{
  Call, calling, spinning, inside, holding, leaving, returned, core_step, calls,
}
use security_audits.Solid.SpinMutex.Exclusion.{
  bit, bit_le, bit_free, holds-calls, holds, wrote, TakesLock, UpToDate, All_outside, OneInside,
  Step-OneInside, Returned, Returned-totals,
}

module _ {ℓ} {T : Type ℓ} (f : T → T) where
  -- The data after `n` calls.
  abbrev pub repeated : ℕ → T → T
  repeated zero x = x
  repeated (suc n) x = f (repeated n x)

  -- What a step makes of a call, and of the data.
  record Advanced (m m' : SpinMutex T) (t t' : Call T) : Type ℓ where
    takes : TakesLock t'
    fresh : UpToDate m'.data' t'
    effect :
        ((m'.data' ≡ m.data') × (wrote t' ≡ wrote t))
        ⊎ ((m'.data' ≡ f m.data') × (wrote t' ≡ suc (wrote t)) × (holds t ≡ 1))

  spun-Advanced :
      (m : SpinMutex T) (b : Bool)
      → Advanced m (record m { locked = true }) spinning (if b then spinning else inside true)
  spun-Advanced m true = record { takes = tt; fresh = tt; effect = inl (refl, refl) }
  spun-Advanced m false = record { takes = refl; fresh = tt; effect = inl (refl, refl) }

  answer-Advanced :
      {m m₁ m' : SpinMutex T} {t t₁ t' : Call T}
      → Advanced m m₁ t t₁
      → ◌≡◌ {A = Option (SpinMutex T × Call T)} (some (m₁, t₁)) (some (m', t'))
      → Advanced m m' t t'
  answer-Advanced {m} {t} a e = subst (λ p. Advanced m p.0 t p.1) (Option.some_inj.0 e) a

  core_step-Advanced :
      (m m' : SpinMutex T) (t t' : Call T)
      → core_step f m t ≡ some (m', t')
      → TakesLock t
      → UpToDate m.data' t
      → Advanced m m' t t'
  unfolding core_step sns_dsp
  core_step-Advanced m m' (calling true) t' e h u = absurd cc
  core_step-Advanced m m' (calling false) t' e h u =
      answer-Advanced (record { takes = tt; fresh = tt; effect = inl (refl, refl) }) e
  core_step-Advanced m m' spinning t' e h u = answer-Advanced (spun-Advanced m m.locked) e
  core_step-Advanced m m' (inside took) t' e h u =
      answer-Advanced (record { takes = h; fresh = refl; effect = inl (refl, refl) }) e
  core_step-Advanced m m' (holding took x) t' e h u =
      answer-Advanced (record { takes = h; fresh = tt; effect = inr (ap f u, refl, ap bit h) }) e
  core_step-Advanced m m' (leaving true) t' e h u =
      answer-Advanced (record { takes = refl; fresh = tt; effect = inl (refl, refl) }) e
  core_step-Advanced m m' (leaving false) t' e h u = absurd cc
  core_step-Advanced m m' (returned took) t' e h u = absurd cc

  -- The calls that have written have been applied one after the other, and nobody holds an old value.
  pub record InOrder (x : T) (s : Machine (SpinMutex T) (Call T)) : Type ℓ where
    pub one : OneInside f s
    pub takes : All TakesLock s.threads
    pub fresh : All (UpToDate s.shared.data') s.threads
    pub applied : s.shared.data' ≡ repeated (total wrote s.threads) x

  -- The calls beside the one that moves.
  others-fresh :
      {m m' : SpinMutex T} {t t' : Call T} (ts : List (Call T))
      → Advanced m m' t t'
      → (holds t ≡ 1 → total holds ts ≡ 0)
      → All TakesLock ts
      → All (UpToDate m.data') ts
      → All (UpToDate m'.data') ts
  others-fresh {m'} ts a alone h u = elim a.effect [
    | inl (same, w) ↦ subst (λ y. All (UpToDate y) ts) (sym same) u
    | inr (new', w, held) ↦ All_outside m'.data' ts h (alone held)
  ]

  applied-Advanced :
      {m m' : SpinMutex T} {t t' : Call T} (a b : ℕ) (x : T)
      → Advanced m m' t t'
      → m.data' ≡ repeated (a + (wrote t + b)) x
      → m'.data' ≡ repeated (a + (wrote t' + b)) x
  applied-Advanced {m} {m'} {t} {t'} a b x adv e = elim adv.effect [
    | inl (same, w) ↦ rw same (rw w e)
    | inr (new', w, held) ↦
        let more : suc (a + (wrote t + b)) ≡ a + (wrote t' + b) = omega (arith, w) in
        new' ∙ ap f e ∙ ap (λ n. repeated n x) more
  ]

  -- A step of one call among the others.
  move-InOrder :
      (x : T) (m m' : SpinMutex T) (before after : List (Call T)) (t t' : Call T)
      → core_step f m t ≡ some (m', t')
      → InOrder x (record { shared = m; threads = before ++ t ∷ after })
      → OneInside f (record { shared = m'; threads = before ++ t' ∷ after })
      → InOrder x (record { shared = m'; threads = before ++ t' ∷ after })
  move-InOrder x m m' before after t t' e o one' =
      let (tb, tr) = All_parts TakesLock before (t ∷ after) o.takes in
      let (ub, ur) = All_parts (UpToDate m.data') before (t ∷ after) o.fresh in
      let adv : Advanced m m' t t' = core_step-Advanced m m' t t' e tr.0 ur.0 in
      let held : total holds before + (holds t + total holds after) ≡ bit m.locked =
        sym (total-append holds before (t ∷ after)) ∙ o.one in
      let small : bit m.locked ≤ 1 = bit_le m.locked in
      record {
        one = one';
        takes = All-append TakesLock before (t' ∷ after) tb (adv.takes, tr.1);
        fresh =
            All-append (UpToDate m'.data') before (t' ∷ after)
              (others-fresh before adv (λ h. omega (arith, held, small, h)) tb ub)
              (adv.fresh, others-fresh after adv (λ h. omega (arith, held, small, h)) tr.1 ur.1);
        applied = rw (total-append wrote before (t' ∷ after)) (
            applied-Advanced (total wrote before) (total wrote after) x adv
              (o.applied ∙ ap (λ n. repeated n x) (total-append wrote before (t ∷ after))));
      }

  pub Step-InOrder :
      (x : T) {s u : Machine (SpinMutex T) (Call T)}
      → Step (core_step f) s u
      → InOrder x s
      → InOrder x u
  Step-InOrder x {s} {u} (pick before t after m t' at e eq) o =
      let one' : OneInside f u = Step-OneInside f (pick before t after m t' at e eq) o.one in
      subst (InOrder x) (sym eq) (
        move-InOrder x s.shared m before after t t' e
          (subst (λ ts. InOrder x (record { shared = s.shared; threads = ts })) at o)
          (subst (OneInside f) eq one'))

  calls-InOrder : (n : ℕ) (x : T) → InOrder x (calls f (replicate n false) (new x))
  calls-InOrder n x = record {
    one = holds-calls f (replicate n false) (new x);
    takes = takes-calls n;
    fresh = fresh-calls n;
    applied = ap (λ k. repeated k x) (sym (wrote-calls n));
  }
    where
      takes-calls : (n : ℕ) → All TakesLock (calls f (replicate n false) (new x)).threads
      takes-calls zero = tt
      takes-calls (suc n) = (refl, takes-calls n)

      fresh-calls : (n : ℕ) → All (UpToDate x) (calls f (replicate n false) (new x)).threads
      fresh-calls zero = tt
      fresh-calls (suc n) = (tt, fresh-calls n)

      wrote-calls : (n : ℕ) → total wrote (calls f (replicate n false) (new x)).threads ≡ 0
      wrote-calls zero = refl
      wrote-calls (suc n) = omega (arith, wrote-calls n)

  pub Reach-InOrder :
      (n : ℕ) (x : T) {s : Machine (SpinMutex T) (Call T)}
      → Reach (core_step f) (calls f (replicate n false) (new x)) s
      → InOrder x s
  Reach-InOrder n x here = calls-InOrder n x
  Reach-InOrder n x (next r st) = Step-InOrder x st (Reach-InOrder n x r)

  -- The calls one after the other, with the dispatcher enabled.
  abbrev pub called : SpinMutex T → Option (SpinMutex T)
  called m =
      Option.map (λ (r : Unit {0} × Bool × SpinMutex T). r.2)
        (with_locked_buggy false (λ (y : T). (tt, f y)) m)

  abbrev pub in_turn : ℕ → SpinMutex T → Option (SpinMutex T)
  in_turn zero m = some m
  in_turn (suc n) m = Option.bind (in_turn n m) called

  in_turn-repeated : (n : ℕ) (x : T) → in_turn n (new x) ≡ some (new (repeated n x))
  unfolding with_locked_buggy sns_dsp Option.bind
  in_turn-repeated zero x = refl
  in_turn-repeated (suc n) x = ap (λ o. Option.bind o called) (in_turn-repeated n x)

  length-calls : (n : ℕ) (x : T) → length (calls f (replicate n false) (new x)).threads ≡ n
  length-calls zero x = refl
  length-calls (suc n) x = ap suc (length-calls n x)

  -- Calls on a new mutex from several cores, each with its dispatcher enabled: in whatever order their
  -- operations come, once all the calls have returned the mutex is what as many calls of
  -- `with_locked_buggy`, one after the other, make of it.
  pub Reach-in_turn :
      (n : ℕ) (x : T) {s : Machine (SpinMutex T) (Call T)}
      → Reach (core_step f) (calls f (replicate n false) (new x)) s
      → All Returned s.threads
      → in_turn n (new x) ≡ some s.shared
  Reach-in_turn n x {s} r over =
      let o = Reach-InOrder n x r in
      let (none_held, all_wrote) = Returned-totals s.threads over in
      let written : total wrote s.threads ≡ n =
        all_wrote ∙ Reach-length (core_step f) r ∙ length-calls n x in
      let free : s.shared.locked ≡ false = bit_free s.shared.locked (sym o.one ∙ none_held) in
      in_turn-repeated n x
      ∙ ap₂ (λ b y. Option.some (record { locked = b; data' = y })) (sym free)
          (ap (λ k. repeated k x) (sym written) ∙ sym o.applied)
