-- ===== src/Unix/Signal/Interrupted.antt =====
-- What 123 has read, in every interleaving.
use security_audits.Base.{
  ℕ, ◌≡◌, Bool, true, false, Option, none, some, err, refl, sym, ap, ap₂, subst, ◌∙◌,
}
use mathlib.Core.Option
use security_audits.Base.Runs.{Reach-keeps}
use security_audits.Unix.ReadFile.{eintr}
use security_audits.Unix.Interrupted.{triggered, judged}
use security_audits.Unix.Signal.{
  SignalTarget, linux, macos, Sigaction, act, MainThread, installing, piping, spawning, reading,
  blocked, returned, printed, panicked, killed, Sender, unborn, sleeping, ending, gone, State,
  main_next, print, sender_next, interrupt, taken_by_main, taken_by_sender, start, Step, main_moves,
  sender_moves, main_takes, sender_takes, Reach,
}

-- What `main` has: an error only of an interrupted read, and only its line.
abbrev pub Interrupted : MainThread → ℕ → Type 0
Interrupted (returned res) errno = (res ≡ err eintr) × (errno ≡ eintr)
Interrupted (printed v) errno = v ≡ triggered eintr
Interrupted installing errno = Unit
Interrupted piping errno = Unit
Interrupted spawning errno = Unit
Interrupted reading errno = Unit
Interrupted blocked errno = Unit
Interrupted panicked errno = Unit
Interrupted killed errno = Unit

-- Only `act` is installed.
abbrev pub Own : ℕ → Option Sigaction → Type 0
Own handler none = Unit
Own handler (some a) = a ≡ act handler

pub record Good (handler : ℕ) (s : State) : Type 0 where
  pub interrupted : Interrupted s.main s.errno
  pub own : Own handler s.action

main_next-Good :
    (handler : ℕ) (works : Bool) (m : MainThread) (s u : State)
    → main_next handler works m s ≡ some u
    → Interrupted m s.errno
    → Own handler s.action
    → Good handler u
unfolding main_next
main_next-Good handler true installing s u e i o =
    subst (Good handler) (Option.some_inj.0 e) record { interrupted = tt; own = refl }
main_next-Good handler false installing s u e i o =
    subst (Good handler) (Option.some_inj.0 e) record { interrupted = tt; own = o }
main_next-Good handler true piping s u e i o =
    subst (Good handler) (Option.some_inj.0 e) record { interrupted = tt; own = o }
main_next-Good handler false piping s u e i o =
    subst (Good handler) (Option.some_inj.0 e) record { interrupted = tt; own = o }
main_next-Good handler true spawning s u e i o =
    subst (Good handler) (Option.some_inj.0 e) record { interrupted = tt; own = o }
main_next-Good handler false spawning s u e i o =
    subst (Good handler) (Option.some_inj.0 e) record { interrupted = tt; own = o }
main_next-Good handler works reading s u e i o =
    subst (Good handler) (Option.some_inj.0 e) record { interrupted = tt; own = o }
main_next-Good handler works blocked s u e i o = absurd cc
main_next-Good handler works (returned res) s u e (r, n) o =
    let line : judged s.errno (some res) ≡ some (triggered eintr) =
      ap₂ (λ k x. judged k (some x)) n r in
    subst (Good handler) (Option.some_inj.0 (ap (λ v. print v s) (sym line) ∙ e))
      record { interrupted = refl; own = o }
main_next-Good handler works (printed v) s u e i o = absurd cc
main_next-Good handler works panicked s u e i o = absurd cc
main_next-Good handler works killed s u e i o = absurd cc

sender_next-Good :
    (handler : ℕ) (t : Sender) (s u : State)
    → sender_next t s ≡ some u
    → Good handler s
    → Good handler u
unfolding sender_next
sender_next-Good handler unborn s u e g = absurd cc
sender_next-Good handler sleeping s u e g =
    subst (Good handler) (Option.some_inj.0 e) record { interrupted = g.interrupted; own = g.own }
sender_next-Good handler ending s u e g =
    subst (Good handler) (Option.some_inj.0 e) record { interrupted = g.interrupted; own = g.own }
sender_next-Good handler gone s u e g = absurd cc

interrupt-Good :
    (handler : ℕ) (m : MainThread) (s : State)
    → s.main ≡ m
    → Good handler s
    → Good handler (interrupt false m s)
interrupt-Good handler blocked s e g = record { interrupted = (refl, refl); own = g.own }
interrupt-Good handler installing s e g = record { interrupted = g.interrupted; own = g.own }
interrupt-Good handler piping s e g = record { interrupted = g.interrupted; own = g.own }
interrupt-Good handler spawning s e g = record { interrupted = g.interrupted; own = g.own }
interrupt-Good handler reading s e g = record { interrupted = g.interrupted; own = g.own }
interrupt-Good handler (returned r) s e g = record { interrupted = g.interrupted; own = g.own }
interrupt-Good handler (printed v) s e g = record { interrupted = g.interrupted; own = g.own }
interrupt-Good handler panicked s e g = record { interrupted = g.interrupted; own = g.own }
interrupt-Good handler killed s e g = record { interrupted = g.interrupted; own = g.own }

taken_by_main-Good :
    (target : SignalTarget) (handler : ℕ) (a : Option Sigaction) (s : State)
    → s.action ≡ a
    → Good handler s
    → Good handler (taken_by_main target a s)
unfolding taken_by_main
taken_by_main-Good target handler none s e g = record { interrupted = tt; own = g.own }
taken_by_main-Good linux handler (some a) s e g =
    let own' : a ≡ act handler = subst (Own handler) e g.own in
    subst (λ x. Good handler (taken_by_main linux (some x) s)) (sym own')
      (interrupt-Good handler s.main s refl g)
taken_by_main-Good macos handler (some a) s e g =
    let own' : a ≡ act handler = subst (Own handler) e g.own in
    subst (λ x. Good handler (taken_by_main macos (some x) s)) (sym own')
      (interrupt-Good handler s.main s refl g)

taken_by_sender-Good :
    (handler : ℕ) (a : Option Sigaction) (s : State)
    → Good handler s
    → Good handler (taken_by_sender a s)
unfolding taken_by_sender
taken_by_sender-Good handler none s g = record { interrupted = tt; own = g.own }
taken_by_sender-Good handler (some a) s g = record { interrupted = g.interrupted; own = g.own }

Step-Good :
    (target : SignalTarget) (handler : ℕ) (s u : State)
    → Step target handler s u
    → Good handler s
    → Good handler u
Step-Good target handler s u (main_moves works e) g =
    main_next-Good handler works s.main s u e g.interrupted g.own
Step-Good target handler s u (sender_moves live e) g = sender_next-Good handler s.sender s u e g
Step-Good target handler s u (main_takes live p e) g =
    subst (Good handler) (sym e) (taken_by_main-Good target handler s.action s refl g)
Step-Good target handler s u (sender_takes live p t e) g =
    subst (Good handler) (sym e) (taken_by_sender-Good handler s.action s g)

pub Reach-Good :
    (target : SignalTarget) (handler : ℕ) {s : State}
    → Reach target handler start s
    → Good handler s
Reach-Good target handler r =
    Reach-keeps (Step target handler) (Good handler) (Step-Good target handler) r
      record { interrupted = tt; own = tt }
