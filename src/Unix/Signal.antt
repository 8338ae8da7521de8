-- ===== src/Unix/Signal.antt =====
-- rust-stdlib/pocs/123-interrupted-reads-are-not-retried.rs: `main`, its thread, and the signal that the thread
-- sends to the process. What POSIX says of signals is part of the steps: the signal waits until some thread
-- takes it, and any thread may; with the handler in place a blocked `read` of the thread that takes it
-- fails with EINTR, unless the flags have SA_RESTART; without a handler the process dies. Nothing is
-- written to the pipe, and both of its ends are open, so that a `read` ends in no other way.
pub mod Either
pub mod Interrupted
pub mod Outcomes
pub mod Spawned
mod Tests
use security_audits.Base.{
  ℕ, zero, suc, ◌≡◌, ◌==◌, Bool, true, false, not, List, [], ◌∷◌, replicate, Option, none, some,
  bit_and, if◌then◌else◌, Result, ok, err,
}
use security_audits.Base.Runs
use security_audits.Unix.ReadFile.{Reply, failed, got, eintr}
use security_audits.Unix.Interrupted.{Verdict, judged}

-- The two targets, by the value that SA_RESTART has there.
pub data SignalTarget : Type 0 where
  linux : SignalTarget
  macos : SignalTarget

abbrev pub sa_restart : SignalTarget → ℕ
sa_restart linux = 0x10000000
sa_restart macos = 2

pub record Sigaction : Type 0 where
  pub sa_handler : ℕ
  pub sa_mask : List ℕ
  pub sa_flags : ℕ

-- `handler` is the address of the empty function.
abbrev pub act : ℕ → Sigaction
act handler = record { sa_handler = handler; sa_mask = replicate 16 0; sa_flags = 0 }

-- Where `main` stands: before each of its calls, in a `read` that blocks, and with what its loop returned.
pub data MainThread : Type 0 where
  installing : MainThread
  piping : MainThread
  spawning : MainThread
  reading : MainThread
  blocked : MainThread
  returned : Result (Unit {0}) ℕ → MainThread
  printed : Verdict → MainThread
  panicked : MainThread
  killed : MainThread

-- The thread that sends the signal; it can take it while it ends.
pub data Sender : Type 0 where
  unborn : Sender
  sleeping : Sender
  ending : Sender
  gone : Sender

-- `action` is what is installed for the signal, `pending` whether it has been sent and not taken.
pub record State : Type 0 where
  pub main : MainThread
  pub sender : Sender
  pub action : Option Sigaction
  pub pending : Bool
  pub errno : ℕ

-- A round of the loop of `vulnerable_read_file`, on what `read` returned.
abbrev pub read_round : Reply → MainThread
read_round (failed e) = returned (err e)
read_round (got zero) = returned (ok tt)
read_round (got (suc n)) = reading

abbrev pub print : Option Verdict → State → Option State
print none s = none
print (some v) s = some (record s { main = printed v })

-- The next operation of `main`. `works` says whether the call of `sigaction`, of `pipe` or of
-- `thread::spawn` succeeds; the result of the first is not looked at.
unfoldable pub main_next : ℕ → Bool → MainThread → State → Option State
main_next handler true installing s = some (record s { main = piping; action = some (act handler) })
main_next handler false installing s = some (record s { main = piping })
main_next handler works piping s = some (record s { main = if works then spawning else panicked })
main_next handler true spawning s = some (record s { main = reading; sender = sleeping })
main_next handler false spawning s = some (record s { main = panicked })
main_next handler works reading s = some (record s { main = blocked })
main_next handler works blocked s = none
main_next handler works (returned res) s = print (judged s.errno (some res)) s
main_next handler works (printed v) s = none
main_next handler works panicked s = none
main_next handler works killed s = none

abbrev pub is_over : MainThread → Bool
is_over (printed v) = true
is_over panicked = true
is_over killed = true
is_over installing = false
is_over piping = false
is_over spawning = false
is_over reading = false
is_over blocked = false
is_over (returned res) = false

-- The next operation of the other thread, which ends with the process.
unfoldable pub sender_next : Sender → State → Option State
sender_next unborn s = none
sender_next sleeping s = some (record s { sender = ending; pending = true })
sender_next ending s = some (record s { sender = gone })
sender_next gone s = none

-- What a `read` of the thread that takes the signal becomes.
abbrev pub interrupt : Bool → MainThread → State → State
interrupt false blocked s = record s {
  main = read_round (failed eintr);
  pending = false;
  errno = eintr;
}
interrupt true blocked s = record s { pending = false }
interrupt restarts installing s = record s { pending = false }
interrupt restarts piping s = record s { pending = false }
interrupt restarts spawning s = record s { pending = false }
interrupt restarts reading s = record s { pending = false }
interrupt restarts (returned res) s = record s { pending = false }
interrupt restarts (printed v) s = record s { pending = false }
interrupt restarts panicked s = record s { pending = false }
interrupt restarts killed s = record s { pending = false }

-- The default action ends the process.
unfoldable pub taken_by_main : SignalTarget → Option Sigaction → State → State
taken_by_main target none s = record s { main = killed; pending = false }
taken_by_main target (some a) s =
    interrupt (not (bit_and a.sa_flags (sa_restart target) == 0)) s.main s

unfoldable pub taken_by_sender : Option Sigaction → State → State
taken_by_sender none s = record s { main = killed; pending = false }
taken_by_sender (some a) s = record s { pending = false }

abbrev pub start : State
start = record { main = installing; sender = unborn; action = none; pending = false; errno = 0 }

pub data Step (target : SignalTarget) (handler : ℕ) (s u : State) : Type 0 where
  main_moves : (works : Bool) → main_next handler works s.main s ≡ some u → Step target handler s u
  sender_moves : is_over s.main ≡ false → sender_next s.sender s ≡ some u → Step target handler s u
  main_takes :
      is_over s.main ≡ false
      → s.pending ≡ true
      → u ≡ taken_by_main target s.action s
      → Step target handler s u
  sender_takes :
      is_over s.main ≡ false
      → s.pending ≡ true
      → s.sender ≡ ending
      → u ≡ taken_by_sender s.action s
      → Step target handler s u

abbrev pub Reach : SignalTarget → ℕ → State → State → Type 0
Reach target handler = Runs.Reach (Step target handler)
