-- ===== src/Solid/SpinMutex/Finish.antt =====
-- How the calls of 107 go on from where they have been interrupted.
use security_audits.Base.{
  ℕ, zero, suc, ◌≤◌, ◌<◌, ◌≡◌, refl, ap, subst, arith, true, false, List, [], ◌∷◌, ◌++◌, some, ◌⊎◌,
  inl, inr, total, total-append, All, All_parts, replicate, Bool-cases,
}
use security_audits.Base.Runs.{here, Step-Reach, Reach-append}
use security_audits.Base.Threads.{Machine, Step, pick, Reach}
use security_audits.Solid.SpinMutex.{SpinMutex, sns_dsp, new}
use security_audits.Solid.SpinMutex.Cores.{
  Call, calling, spinning, inside, holding, leaving, returned, core_step, calls,
}
use security_audits.Solid.SpinMutex.Exclusion.{bit, holds, TakesLock, Returned}
use security_audits.Solid.SpinMutex.InTurn.{
  InOrder, Step-InOrder, Reach-InOrder, Reach-in_turn, in_turn,
}

-- An element that counts, and what stands around it.
record Found {ℓ} {A : Type ℓ} (w : A → ℕ) (ts : List A) : Type ℓ where
  before : List A
  one : A
  after : List A
  at : ts ≡ before ++ one ∷ after
  counts : 0 < w one

zero_or : (n : ℕ) → (n ≡ 0) ⊎ (0 < n)
zero_or zero = inl refl
zero_or (suc n) = inr (omega arith)

find {ℓ} : {A : Type ℓ} (w : A → ℕ) (ts : List A) → 0 < total w ts → Found w ts
find w [] h = absurd (omega (arith, h))
find w (t ∷ ts) h = elim (zero_or (w t)) [
  | inl e ↦
      let r = find w ts (omega (arith, h, e)) in
      record {
        before = t ∷ r.before;
        one = r.one;
        after = r.after;
        at = ap (◌∷◌ t) r.at;
        counts = r.counts;
      }
  | inr n ↦ record { before = []; one = t; after = ts; at = refl; counts = n }
]

module _ {ℓ} {T : Type ℓ} where
  -- The operations a call has before it, if it need not spin.
  abbrev remaining : Call T → ℕ
  remaining (calling disabled) = 5
  remaining spinning = 4
  remaining (inside took) = 3
  remaining (holding took x) = 2
  remaining (leaving took) = 1
  remaining (returned took) = 0

  remaining-Returned : (ts : List (Call T)) → total remaining ts ≡ 0 → All Returned ts
  remaining-Returned [] e = tt
  remaining-Returned (returned b ∷ ts) e = (tt, remaining-Returned ts (omega (arith, e)))
  remaining-Returned (calling b ∷ ts) e = absurd (omega (arith, e))
  remaining-Returned (spinning ∷ ts) e = absurd (omega (arith, e))
  remaining-Returned (inside b ∷ ts) e = absurd (omega (arith, e))
  remaining-Returned (holding b x ∷ ts) e = absurd (omega (arith, e))
  remaining-Returned (leaving b ∷ ts) e = absurd (omega (arith, e))

  holds-remaining : (t : Call T) → 0 < holds t → 0 < remaining t
  holds-remaining (calling b) h = omega arith
  holds-remaining spinning h = omega arith
  holds-remaining (inside b) h = omega arith
  holds-remaining (holding b x) h = omega arith
  holds-remaining (leaving b) h = omega arith
  holds-remaining (returned b) h = absurd (omega (arith, h))

module _ {ℓ} {T : Type ℓ} (f : T → T) where
  record Moves (m : SpinMutex T) (t : Call T) : Type ℓ where
    mutex : SpinMutex T
    call : Call T
    is : core_step f m t ≡ some (mutex, call)
    less : remaining call < remaining t

  -- A call moves on unless it spins on a lock that is held.
  core_step-Moves :
      (m : SpinMutex T) (t : Call T)
      → TakesLock t
      → 0 < remaining t
      → (m.locked ≡ false) ⊎ (0 < holds t)
      → Moves m t
  unfolding core_step sns_dsp
  core_step-Moves m (calling true) h r g = absurd cc
  core_step-Moves m (calling false) h r g = record {
    mutex = m;
    call = spinning;
    is = refl;
    less = omega arith;
  }
  core_step-Moves m spinning h r (inl free) = record {
    mutex = record m { locked = true };
    call = inside true;
    is = rw free refl;
    less = omega arith;
  }
  core_step-Moves m spinning h r (inr held) = absurd (omega (arith, held))
  core_step-Moves m (inside took) h r g = record {
    mutex = m;
    call = holding took m.data';
    is = refl;
    less = omega arith;
  }
  core_step-Moves m (holding took x) h r g = record {
    mutex = record m { data' = f x };
    call = leaving took;
    is = refl;
    less = omega arith;
  }
  core_step-Moves m (leaving true) h r g = record {
    mutex = record m { locked = false };
    call = returned true;
    is = refl;
    less = omega arith;
  }
  core_step-Moves m (leaving false) h r g = absurd cc
  core_step-Moves m (returned took) h r g = absurd (omega (arith, r))

  -- Where calls remain, one of them moves on: the one inside while the lock is held, any while it is free.
  mover :
      (x : T) (s : Machine (SpinMutex T) (Call T))
      → InOrder f x s
      → 0 < total remaining s.threads
      → (s.shared.locked ≡ true) ⊎ (s.shared.locked ≡ false)
      → (w : Call T → ℕ) × (r : Found w s.threads) × (0 < remaining r.one)
        × ((s.shared.locked ≡ false) ⊎ (0 < holds r.one))
  mover x s o h (inr free) =
      let r = find remaining s.threads h in (remaining, r, r.counts, inl free)
  mover x s o h (inl held) =
      let r = find holds s.threads (omega (arith, o.one, ap bit held)) in
      (holds, r, holds-remaining r.one r.counts, inr r.counts)

  record Progress (s : Machine (SpinMutex T) (Call T)) : Type ℓ where
    then' : Machine (SpinMutex T) (Call T)
    step : Step (core_step f) s then'
    less : total remaining then'.threads < total remaining s.threads

  progress :
      (x : T) (s : Machine (SpinMutex T) (Call T))
      → InOrder f x s
      → 0 < total remaining s.threads
      → Progress s
  progress x s o h =
      let (w, r, left, may) = mover x s o h (Bool-cases s.shared.locked) in
      let (tb, tr) =
        All_parts TakesLock r.before (r.one ∷ r.after) (subst (All TakesLock) r.at o.takes) in
      let v = core_step-Moves s.shared r.one tr.0 left may in
      record {
        then' = record { shared = v.mutex; threads = r.before ++ v.call ∷ r.after };
        step = pick r.before r.one r.after v.mutex v.call r.at v.is refl;
        less = omega (
          arith,
          ap (total remaining) r.at,
          total-append remaining r.before (r.one ∷ r.after),
          total-append remaining r.before (v.call ∷ r.after),
          v.less,
        );
      }

  -- The rest of a run.
  record Finish (s : Machine (SpinMutex T) (Call T)) : Type ℓ where
    pub last : Machine (SpinMutex T) (Call T)
    pub run : Reach (core_step f) s last
    pub over : All Returned last.threads

  finish :
      (k : ℕ) (x : T) (s : Machine (SpinMutex T) (Call T))
      → InOrder f x s
      → total remaining s.threads ≤ k
      → Finish s
  finish zero x s o h = record {
    last = s;
    run = here;
    over = remaining-Returned s.threads (omega (arith, h));
  }
  finish (suc k) x s o h = elim (zero_or (total remaining s.threads)) [
    | inl none_left ↦ record { last = s; run = here; over = remaining-Returned s.threads none_left }
    | inr some_left ↦
        let p = progress x s o some_left in
        let r = finish k x p.then' (Step-InOrder f x p.step o) (omega (arith, h, p.less)) in
        record { last = r.last; run = Step-Reach (Step (core_step f)) p.step r.run; over = r.over }
  ]

  -- Calls on a new mutex from any number of cores, each with its dispatcher enabled, stopped at any point:
  -- there is a way to go on after which all of them have returned, and then the mutex is what as many
  -- calls one after the other make of it.
  pub Reach-Finish :
      (n : ℕ) (x : T) (s : Machine (SpinMutex T) (Call T))
      → Reach (core_step f) (calls f (replicate n false) (new x)) s
      → (u : Machine (SpinMutex T) (Call T)) × Reach (core_step f) s u
        × All Returned u.threads
        × (in_turn f n (new x) ≡ some u.shared)
  Reach-Finish n x s r =
      let e = finish (total remaining s.threads) x s (Reach-InOrder f n x r) (omega arith) in
      (
        e.last,
        e.run,
        e.over,
        Reach-in_turn f n x (Reach-append (Step (core_step f)) r e.run) e.over,
      )
