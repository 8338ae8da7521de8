-- ===== src/Sync/TimedRace/Progress.antt =====
-- The next move of the threads of 067.
use security_audits.Base.{
  ℕ, ◌+◌, ◌-◌, ◌*◌, ◌≤◌, ◌<◌, ◌≡◌, refl, ap, subst, ◌∙◌, ◌⊎◌, inl, inr, arith, Bool, true, false,
  Option, none, some, leb, leb-true, if◌then◌else◌, Outcome,
}
use security_audits.Base.Runs
use security_audits.Base.Runs.{here, next, Reach-keeps, Reach-append}
use security_audits.Sync.TimedRace.{checked_sub}
use security_audits.Sync.TimedRace.{
  millis, Waiter, starting, locking, measuring, checking, waiting, relocking, returned, ended,
  Notifier, sleeping, taking, holding, dropping, notifying, joining, concluded, State, check,
  waiter_next, joined_with, notifier_next, Step, passes, waiter_moves, notifier_moves,
}
use security_audits.Sync.TimedRace.Flag.{bit, waiter_inside, notifier_inside, Good, Set}

abbrev pub notifier_left : Notifier → ℕ
notifier_left (sleeping t) = 6
notifier_left taking = 5
notifier_left (holding t) = 4
notifier_left dropping = 3
notifier_left notifying = 2
notifier_left joining = 1
notifier_left (concluded o) = 0

abbrev pub waiter_left : Waiter → ℕ
waiter_left starting = 7
waiter_left (locking o) = 6
waiter_left (measuring o) = 5
waiter_left (waiting o b) = 4
waiter_left (relocking o b) = 3
waiter_left (checking o b) = 2
waiter_left (returned o r) = 1
waiter_left (ended r e) = 0

-- A move of `main` outweighs what the waiter can fall back.
abbrev pub left : State → ℕ
left s = notifier_left s.notifier * 9 + waiter_left s.waiter

pub record Progress (s : State) : Type 0 where
  pub last : State
  pub run : Runs.Reach Step s last
  pub less : left last < left s

notifier-Progress :
    (s u : State) → notifier_next s.notifier s ≡ some u → left u < left s → Progress s
notifier-Progress s u e l = record { last = u; run = next here (notifier_moves e); less = l }

waiter-Progress : (s u : State) → waiter_next s.waiter s ≡ some u → left u < left s → Progress s
waiter-Progress s u e l = record { last = u; run = next here (waiter_moves e); less = l }

bit_zero : (b : Bool) → bit b ≡ 0 → b ≡ false
bit_zero true e = absurd (omega (arith, e))
bit_zero false e = refl

-- After a sleep that is long enough.
woken :
    (since d clock : ℕ) {A : Type 0} (x : A)
    → (if leb d (clock + (d + since) - since) then some x else none) ≡ some x
woken since d clock x = rw (leb-true d (clock + (d + since) - since) (omega arith)) refl

free :
    {w : Waiter} {n : Notifier} (s : State)
    → s.waiter ≡ w
    → s.notifier ≡ n
    → Good s
    → waiter_inside w ≡ 0
    → notifier_inside n ≡ 0
    → s.locked ≡ false
free s h n g a b =
    bit_zero s.locked (omega (arith, g.exclusive, ap waiter_inside h, ap notifier_inside n, a, b))

free_lock :
    (s u : State)
    → s.locked ≡ false
    → ◌≡◌ {A = Option State} (if s.locked then none else some u) (some u)
free_lock s u e = ap (λ (b : Bool). if b then none else some u) e

-- The waiter goes on once the value is set.
joining-Progress :
    (w : Waiter) (s : State) → s.waiter ≡ w → s.notifier ≡ joining → Good s → Progress s
unfolding waiter_next notifier_next
joining-Progress starting s h n g =
    waiter-Progress s _ (ap (λ x. waiter_next x s) h) (omega (arith, ap waiter_left h))
joining-Progress (locking o) s h n g =
    waiter-Progress s _ (ap (λ x. waiter_next x s) h ∙ free_lock s _ (free s h n g refl refl))
      (omega (arith, ap waiter_left h))
joining-Progress (measuring o) s h n g =
    waiter-Progress s _ (ap (λ x. waiter_next x s) h) (omega (arith, ap waiter_left h))
joining-Progress (waiting o b) s h n g =
    waiter-Progress s _ (ap (λ x. waiter_next x s) h) (omega (arith, ap waiter_left h))
joining-Progress (relocking o b) s h n g =
    waiter-Progress s _ (ap (λ x. waiter_next x s) h ∙ free_lock s _ (free s h n g refl refl))
      (omega (arith, ap waiter_left h))
joining-Progress (checking o b) s h n g =
    let set : s.value ≡ true = subst (λ m. Set m s.value) n g.set in
    waiter-Progress s _
      (ap (λ x. waiter_next x s) h
        ∙ ap (λ (v : Bool). some (check o b v (checked_sub (millis 20) (s.clock - b)) s)) set)
      (omega (arith, ap waiter_left h))
joining-Progress (returned o r) s h n g =
    waiter-Progress s _ (ap (λ x. waiter_next x s) h) (omega (arith, ap waiter_left h))
joining-Progress (ended r e) s h n g =
    notifier-Progress s _ (ap (λ x. notifier_next x s) n ∙ ap (λ w. joined_with w s) h)
      (omega (arith, ap notifier_left n))

-- A check ends with the lock free.
check_frees :
    (o b : ℕ) (value : Bool) (timeout : Option ℕ) (s : State)
    → ((check o b value timeout s).locked ≡ false)
      × ((check o b value timeout s).notifier ≡ s.notifier)
      × (waiter_left (check o b value timeout s).waiter ≤ 4)
check_frees o b true timeout s = (refl, refl, omega arith)
check_frees o b false none s = (refl, refl, omega arith)
check_frees o b false (some t) s = (refl, refl, omega arith)

take_free : (s : State) → s.notifier ≡ taking → s.locked ≡ false → Progress s
unfolding notifier_next
take_free s n e =
    notifier-Progress s _ (ap (λ x. notifier_next x s) n ∙ free_lock s _ e)
      (omega (arith, ap notifier_left n))

-- `main` has the lock once the waiter is not under it.
taking-Progress :
    (w : Waiter) (s : State) → s.waiter ≡ w → s.notifier ≡ taking → Good s → Progress s
unfolding waiter_next notifier_next
taking-Progress starting s h n g = take_free s n (free s h n g refl refl)
taking-Progress (locking o) s h n g = take_free s n (free s h n g refl refl)
taking-Progress (measuring o) s h n g =
    waiter-Progress s _ (ap (λ x. waiter_next x s) h) (omega (arith, ap waiter_left h))
taking-Progress (checking o b) s h n g =
    let u = check o b s.value (checked_sub (millis 20) (s.clock - b)) s in
    let (unlocked, same, few) = check_frees o b s.value (checked_sub (millis 20) (s.clock - b)) s in
    record {
      last = record u { locked = true; notifier = holding u.clock };
      run =
          next (next here (waiter_moves (ap (λ x. waiter_next x s) h)))
            (notifier_moves (ap (λ x. notifier_next x u) (same ∙ n) ∙ free_lock u _ unlocked));
      less = omega (arith, few, ap notifier_left n);
    }
taking-Progress (waiting o b) s h n g = take_free s n (free s h n g refl refl)
taking-Progress (relocking o b) s h n g = take_free s n (free s h n g refl refl)
taking-Progress (returned o r) s h n g = take_free s n (free s h n g refl refl)
taking-Progress (ended r e) s h n g = take_free s n (free s h n g refl refl)

-- A sleep, and the operation after it.
slept :
    (s v : State) (d : ℕ)
    → notifier_next s.notifier (record s { clock = s.clock + d }) ≡ some v
    → left v < left s
    → Progress s
slept s v d e l = record {
  last = v;
  run = next (next here (passes d refl)) (notifier_moves e);
  less = l;
}

pub move-Progress :
    (n : Notifier) (s : State)
    → s.notifier ≡ n
    → Good s
    → ((o : Outcome (Unit {0})) × (s.notifier ≡ concluded o)) ⊎ Progress s
unfolding notifier_next
move-Progress (sleeping t) s n g = inr (
    slept s _ (millis 5 + t)
      (ap (λ x. notifier_next x (record s { clock = s.clock + (millis 5 + t) })) n
        ∙ woken t (millis 5) s.clock _)
      (omega (arith, ap notifier_left n)))
move-Progress taking s n g = inr (taking-Progress s.waiter s refl n g)
move-Progress (holding t) s n g = inr (
    slept s _ (millis 80 + t)
      (ap (λ x. notifier_next x (record s { clock = s.clock + (millis 80 + t) })) n
        ∙ woken t (millis 80) s.clock _)
      (omega (arith, ap notifier_left n)))
move-Progress dropping s n g =
    inr (notifier-Progress s _ (ap (λ x. notifier_next x s) n) (omega (arith, ap notifier_left n)))
move-Progress notifying s n g =
    inr (notifier-Progress s _ (ap (λ x. notifier_next x s) n) (omega (arith, ap notifier_left n)))
move-Progress joining s n g = inr (joining-Progress s.waiter s refl n g)
move-Progress (concluded o) s n g = inl (o, n)
