-- ===== src/Unix/Signal/Spawned.antt =====
-- The threads of 123.
use security_audits.Base.{
  ℕ, ◌≡◌, ◌==◌, Bool, true, false, not, Option, none, some, bit_and, refl, sym, subst, arith, ◌||◌,
}
use security_audits.Unix.Signal.{
  SignalTarget, Sigaction, sa_restart, MainThread, installing, piping, spawning, reading, blocked,
  returned, printed, panicked, killed, Sender, unborn, sleeping, ending, gone, State, main_next,
  sender_next, interrupt, taken_by_main, taken_by_sender, Step, main_moves, sender_moves,
  main_takes, sender_takes,
}

-- Once `main` reads, the thread has been spawned.
abbrev pub early : MainThread → Bool
early installing = true
early piping = true
early spawning = true
early panicked = true
early killed = true
early reading = false
early blocked = false
early (returned r) = false
early (printed v) = false

abbrev pub born : Sender → Bool
born unborn = false
born sleeping = true
born ending = true
born gone = true

abbrev pub Born : State → Type 0
Born s = (early s.main || born s.sender) ≡ true

main_next-Born :
    (handler : ℕ) (works : Bool) (m : MainThread) (s u : State)
    → main_next handler works m s ≡ some u
    → s.main ≡ m
    → Born s
    → Born u
unfolding main_next
main_next-Born handler true installing s u e h b = ground arith
main_next-Born handler false installing s u e h b = ground arith
main_next-Born handler true piping s u e h b = ground arith
main_next-Born handler false piping s u e h b = ground arith
main_next-Born handler true spawning s u e h b = ground arith
main_next-Born handler false spawning s u e h b = ground arith
main_next-Born handler works reading s u e h b = ground arith
main_next-Born handler works blocked s u e h b = ground arith
main_next-Born handler works (returned r) s u e h b = ground arith
main_next-Born handler works (printed v) s u e h b = ground arith
main_next-Born handler works panicked s u e h b = ground arith
main_next-Born handler works killed s u e h b = ground arith

sender_next-Born : (t : Sender) (s u : State) → sender_next t s ≡ some u → Born s → Born u
unfolding sender_next
sender_next-Born unborn s u e b = ground arith
sender_next-Born sleeping s u e b = ground arith
sender_next-Born ending s u e b = ground arith
sender_next-Born gone s u e b = ground arith

interrupt-Born :
    (restarts : Bool) (m : MainThread) (s : State)
    → s.main ≡ m
    → Born s
    → Born (interrupt restarts m s)
interrupt-Born true blocked s e b = ground arith
interrupt-Born false blocked s e b = ground arith
interrupt-Born r installing s e b = ground arith
interrupt-Born r piping s e b = ground arith
interrupt-Born r spawning s e b = ground arith
interrupt-Born r reading s e b = ground arith
interrupt-Born r (returned x) s e b = ground arith
interrupt-Born r (printed v) s e b = ground arith
interrupt-Born r panicked s e b = ground arith
interrupt-Born r killed s e b = ground arith

taken_by_main-Born :
    (target : SignalTarget) (a : Option Sigaction) (s : State)
    → Born s
    → Born (taken_by_main target a s)
unfolding taken_by_main
taken_by_main-Born target none s b = refl
taken_by_main-Born target (some a) s b =
    interrupt-Born (not (bit_and a.sa_flags (sa_restart target) == 0)) s.main s refl b

taken_by_sender-Born : (a : Option Sigaction) (s : State) → Born s → Born (taken_by_sender a s)
unfolding taken_by_sender
taken_by_sender-Born none s b = refl
taken_by_sender-Born (some a) s b = b

pub Step-Born :
    (target : SignalTarget) (handler : ℕ) (s u : State) → Step target handler s u → Born s → Born u
Step-Born target handler s u (main_moves works e) b =
    main_next-Born handler works s.main s u e refl b
Step-Born target handler s u (sender_moves live e) b = sender_next-Born s.sender s u e b
Step-Born target handler s u (main_takes live p e) b =
    subst Born (sym e) (taken_by_main-Born target s.action s b)
Step-Born target handler s u (sender_takes live p t e) b =
    subst Born (sym e) (taken_by_sender-Born s.action s b)
