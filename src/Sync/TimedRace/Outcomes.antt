-- ===== src/Sync/TimedRace/Outcomes.antt =====
-- Runs of 067 with different outcomes.
use security_audits.Base.{
  ℕ, ◌+◌, ◌-◌, ◌≡◌, refl, sym, ap, subst, ◌∙◌, arith, Bool, true, false, List, [], ◌∷◌, Option,
  some, leb-true, done, panic,
}
use mathlib.Core.Option
use security_audits.Base.Runs.{here, next}
use security_audits.Sync.TimedRace.{main_timed}
use security_audits.Sync.TimedRace.{
  millis, ended, concluded, State, waiter_next, notifier_next, start, Step, passes, waiter_moves,
  notifier_moves, Reach,
}

-- Whose step is next.
pub data Turn : Type 0 where
  time : ℕ → Turn
  waiter_turn : Turn
  notifier_turn : Turn

unfoldable pub take_turn : Turn → State → Option State
take_turn (time d) s = some (record s { clock = s.clock + d })
take_turn waiter_turn s = waiter_next s.waiter s
take_turn notifier_turn s = notifier_next s.notifier s

unfoldable pub run : List Turn → State → Option State
run [] s = some s
run (t ∷ ts) s = Option.bind (take_turn t s) (run ts)

take_turn-Step : (t : Turn) (s u : State) → take_turn t s ≡ some u → Step s u
unfolding take_turn
take_turn-Step (time d) s u e = passes d (sym (Option.some_inj.0 e))
take_turn-Step waiter_turn s u e = waiter_moves e
take_turn-Step notifier_turn s u e = notifier_moves e

run-Reach : (ts : List Turn) (s : State) {u : State} → Reach s → run ts s ≡ some u → Reach u
unfolding run
run-Reach [] s r e = subst Reach (Option.some_inj.0 e) r
run-Reach (t ∷ ts) s r e =
    let (v, at, rest) = (Option.bind-eq-some_iff (take_turn t s) (run ts)).0 e in
    run-Reach ts v (next r (take_turn-Step t s v at)) rest

-- The end of a run, from the waiter's flag and the time that it took, at a clock.
abbrev pub over : Bool → ℕ → ℕ → State
over timed_out elapsed clock = record {
  clock = clock;
  locked = false;
  value = true;
  waiter = ended timed_out elapsed;
  notifier = concluded (main_timed timed_out elapsed);
}

abbrev notifier_turns : List Turn → List Turn
notifier_turns ts =
    notifier_turn
    ∷ notifier_turn
    ∷ time (millis 80)
    ∷ notifier_turn
    ∷ notifier_turn
    ∷ notifier_turn
    ∷ ts

-- The waiter waits until it is told, and gets the lock `d` later.
abbrev told : ℕ → List Turn
told d =
    waiter_turn
    ∷ waiter_turn
    ∷ waiter_turn
    ∷ waiter_turn
    ∷ time (millis 5)
    ∷ notifier_turns
        (time d ∷ waiter_turn ∷ waiter_turn ∷ waiter_turn ∷ waiter_turn ∷ notifier_turn ∷ [])

-- The waiter does not run before the value is set.
abbrev slow_waiter : List Turn
slow_waiter =
    time (millis 5)
    ∷ notifier_turns
        (waiter_turn ∷ waiter_turn ∷ waiter_turn ∷ waiter_turn ∷ waiter_turn ∷ notifier_turn ∷ [])

-- `main` wakes after the time of the wait is over.
abbrev slow_main : List Turn
slow_main =
    waiter_turn
    ∷ waiter_turn
    ∷ waiter_turn
    ∷ waiter_turn
    ∷ time (millis 60)
    ∷ waiter_turn
    ∷ waiter_turn
    ∷ waiter_turn
    ∷ waiter_turn
    ∷ notifier_turns (notifier_turn ∷ [])

told-over : (d : ℕ) → run (told d) start ≡ some (over false (millis 85 + d - 0) (millis 85 + d))
unfolding run take_turn waiter_next notifier_next Option.bind
told-over d = refl

-- However late the waiter gets the lock back, 85 milliseconds after its start or any time after that, it can
-- end with its flag not set, and both assertions of `main` hold.
pub Reach-late :
    (d : ℕ)
    → Reach (over false (millis 85 + d) (millis 85 + d))
      × (main_timed false (millis 85 + d) ≡ done tt)
unfolding main_timed
Reach-late d =
    let same : millis 85 + d - 0 ≡ millis 85 + d = omega arith in
    (
      run-Reach (told d) start here
          (told-over d ∙ ap (λ e. some (over false e (millis 85 + d))) same),
      rw (leb-true 50000000 (millis 85 + d) (omega arith)) refl,
    )

-- The assertions can also fail: the first where the waiter takes no time, the second where `main` is late and
-- the flag is set as it should.
pub Reach-failed :
    (Reach (over false 0 (millis 85)) × (main_timed false 0 ≡ panic))
    × (Reach (over true (millis 60) (millis 140)) × (main_timed true (millis 60) ≡ panic))
unfolding run take_turn waiter_next notifier_next Option.bind main_timed
Reach-failed =
    ((run-Reach slow_waiter start here refl, refl), (run-Reach slow_main start here refl, refl))
