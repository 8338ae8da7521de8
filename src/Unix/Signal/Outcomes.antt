-- ===== src/Unix/Signal/Outcomes.antt =====
-- How the runs of 123 end.
use security_audits.Base.{
  ℕ, ◌+◌, ◌≤◌, ◌<◌, ◌≡◌, ◌==◌, Bool, true, false, not, Option, none, some, bit_and, refl, sym, ap,
  ap₂, subst, ◌∙◌, ◌⊎◌, inl, inr, arith, ◌||◌,
}
use security_audits.Base.Runs.{Reach-keeps, steps, steps-le}
use security_audits.Unix.ReadFile.{eintr}
use security_audits.Unix.Interrupted.{Verdict, triggered, judged}
use security_audits.Unix.Signal.{
  SignalTarget, Sigaction, sa_restart, MainThread, installing, piping, spawning, reading, blocked,
  returned, printed, panicked, killed, Sender, unborn, sleeping, ending, gone, State, main_next,
  print, is_over, sender_next, interrupt, taken_by_main, taken_by_sender, start, Step, main_moves,
  sender_moves, main_takes, sender_takes, Reach,
}
use security_audits.Unix.Signal.Spawned.{Born, early, born, Step-Born}
use security_audits.Unix.Signal.Interrupted.{Good, Interrupted, Reach-Good}

-- What is left to do.
abbrev main_left : MainThread → ℕ
main_left installing = 9
main_left piping = 8
main_left spawning = 7
main_left reading = 3
main_left blocked = 2
main_left (returned r) = 1
main_left (printed v) = 0
main_left panicked = 0
main_left killed = 0

abbrev sender_left : Sender → ℕ
sender_left unborn = 3
sender_left sleeping = 3
sender_left ending = 1
sender_left gone = 0

abbrev signal_left : Bool → ℕ
signal_left true = 1
signal_left false = 0

abbrev left : State → ℕ
left s = main_left s.main + sender_left s.sender + signal_left s.pending

main_next-left :
    (handler : ℕ) (works : Bool) (m : MainThread) (s u : State)
    → main_next handler works m s ≡ some u
    → s.main ≡ m
    → left u < left s
unfolding main_next
main_next-left handler true installing s u e h = ground arith
main_next-left handler false installing s u e h = ground arith
main_next-left handler true piping s u e h = ground arith
main_next-left handler false piping s u e h = ground arith
main_next-left handler true spawning s u e h = ground arith
main_next-left handler false spawning s u e h = ground arith
main_next-left handler works reading s u e h = ground arith
main_next-left handler works blocked s u e h = ground arith
main_next-left handler works (returned r) s u e h = ground arith
main_next-left handler works (printed v) s u e h = ground arith
main_next-left handler works panicked s u e h = ground arith
main_next-left handler works killed s u e h = ground arith

sender_next-left :
    (t : Sender) (s u : State) → sender_next t s ≡ some u → s.sender ≡ t → left u < left s
unfolding sender_next
sender_next-left unborn s u e h = ground arith
sender_next-left sleeping s u e h = ground arith
sender_next-left ending s u e h = ground arith
sender_next-left gone s u e h = ground arith

interrupt-left :
    (restarts : Bool) (m : MainThread) (s : State)
    → s.main ≡ m
    → s.pending ≡ true
    → left (interrupt restarts m s) < left s
interrupt-left true blocked s e p = ground arith
interrupt-left false blocked s e p = ground arith
interrupt-left r installing s e p = ground arith
interrupt-left r piping s e p = ground arith
interrupt-left r spawning s e p = ground arith
interrupt-left r reading s e p = ground arith
interrupt-left r (returned x) s e p = ground arith
interrupt-left r (printed v) s e p = ground arith
interrupt-left r panicked s e p = ground arith
interrupt-left r killed s e p = ground arith

taken_by_main-left :
    (target : SignalTarget) (a : Option Sigaction) (s : State)
    → s.pending ≡ true
    → left (taken_by_main target a s) < left s
unfolding taken_by_main
taken_by_main-left target none s p = ground arith
taken_by_main-left target (some a) s p =
    interrupt-left (not (bit_and a.sa_flags (sa_restart target) == 0)) s.main s refl p

taken_by_sender-left :
    (a : Option Sigaction) (s : State) → s.pending ≡ true → left (taken_by_sender a s) < left s
unfolding taken_by_sender
taken_by_sender-left none s p = ground arith
taken_by_sender-left (some a) s p = ground arith

Step-left :
    (target : SignalTarget) (handler : ℕ) (s u : State) → Step target handler s u → left u < left s
Step-left target handler s u (main_moves works e) = main_next-left handler works s.main s u e refl
Step-left target handler s u (sender_moves live e) = sender_next-left s.sender s u e refl
Step-left target handler s u (main_takes live p e) =
    subst (λ v. left v < left s) (sym e) (taken_by_main-left target s.action s p)
Step-left target handler s u (sender_takes live p t e) =
    subst (λ v. left v < left s) (sym e) (taken_by_sender-left s.action s p)

-- `main` reads, and no signal is to come.
abbrev pub IsHung : State → Type 0
IsHung s = (s.main ≡ blocked) × (s.sender ≡ gone) × (s.pending ≡ false)

-- The states in which a run can end.
abbrev pub IsEnd : State → Type 0
IsEnd s =
    (s.main ≡ printed (triggered eintr)) ⊎ ((s.main ≡ panicked) ⊎ ((s.main ≡ killed) ⊎ IsHung s))

blocked_or_moves :
    (target : SignalTarget) (handler : ℕ) (t : Sender) (p : Bool) (s : State)
    → s.main ≡ blocked
    → s.sender ≡ t
    → s.pending ≡ p
    → born s.sender ≡ true
    → IsEnd s ⊎ ((u : State) × Step target handler s u)
unfolding sender_next
blocked_or_moves target handler unborn p s e h q b = absurd ground arith
blocked_or_moves target handler sleeping p s e h q b =
    inr (_, sender_moves (ap is_over e) (ap (λ x. sender_next x s) h))
blocked_or_moves target handler ending p s e h q b =
    inr (_, sender_moves (ap is_over e) (ap (λ x. sender_next x s) h))
blocked_or_moves target handler gone true s e h q b = inr (_, main_takes (ap is_over e) q refl)
blocked_or_moves target handler gone false s e h q b = inl (inr (inr (inr (e, h, q))))

IsEnd-or_moves :
    (target : SignalTarget) (handler : ℕ) (m : MainThread) (s : State)
    → s.main ≡ m
    → Good handler s
    → Born s
    → IsEnd s ⊎ ((u : State) × Step target handler s u)
unfolding main_next
IsEnd-or_moves target handler installing s e g b =
    inr (_, main_moves true (ap (λ x. main_next handler true x s) e))
IsEnd-or_moves target handler piping s e g b =
    inr (_, main_moves true (ap (λ x. main_next handler true x s) e))
IsEnd-or_moves target handler spawning s e g b =
    inr (_, main_moves true (ap (λ x. main_next handler true x s) e))
IsEnd-or_moves target handler reading s e g b =
    inr (_, main_moves true (ap (λ x. main_next handler true x s) e))
IsEnd-or_moves target handler (returned r) s e g b =
    let (is_err, is_eintr) = subst (λ m. Interrupted m s.errno) e g.interrupted in
    let line : judged s.errno (some r) ≡ some (triggered eintr) =
      ap₂ (λ k x. judged k (some x)) is_eintr is_err in
    inr (_, main_moves true (ap (λ x. main_next handler true x s) e ∙ ap (λ v. print v s) line))
IsEnd-or_moves target handler (printed v) s e g b =
    inl (inl (e ∙ ap (λ v. printed v) (subst (λ m. Interrupted m s.errno) e g.interrupted)))
IsEnd-or_moves target handler panicked s e g b = inl (inr (inl e))
IsEnd-or_moves target handler killed s e g b = inl (inr (inr (inl e)))
IsEnd-or_moves target handler blocked s e g b =
    blocked_or_moves target handler s.sender s.pending s e refl refl
      (subst (λ m. (early m || born s.sender) ≡ true) e b)

-- A run of the program has at most twelve steps, and where none is left, `main` has printed that its read was
-- interrupted, has panicked at `pipe` or at the spawn, was killed by the signal for want of a handler, or hangs in its
-- read with no signal to come. It never prints another line.
pub Reach-IsEnd :
    (target : SignalTarget) (handler : ℕ) {s : State} (r : Reach target handler start s)
    → (steps (Step target handler) r ≤ 12)
      × ((v : Verdict) → s.main ≡ printed v → v ≡ triggered eintr)
      × (IsEnd s ⊎ ((u : State) × Step target handler s u))
Reach-IsEnd target handler {s} r =
    let g = Reach-Good target handler r in
    (
      omega (arith, steps-le (Step target handler) left (Step-left target handler) r),
      λ v e. subst (λ m. Interrupted m s.errno) e g.interrupted,
      IsEnd-or_moves target handler s.main s refl g
          (Reach-keeps (Step target handler) Born (Step-Born target handler) r refl),
    )
