-- ===== src/Sgx/UserSlice.antt =====
-- rust-stdlib/pocs/071-shared-slice-reference-over-mutable-userspace.rs: a slice over bytes that another
-- thread writes. Each access of a byte is a step and finds what was written last, as the machine has it; to
-- Rust the race on the first byte has no defined behaviour.
pub mod Sums
pub mod Printed
use mathlib.Core.Option
use security_audits.Base.Runs
use security_audits.Base.{
  ℕ, zero, suc, ◌+◌, ◌%◌, ◌^◌, ◌≡◌, Bool, true, false, List, [], ◌∷◌, replicate, Option, none, some,
  get_elem?, ltb, if◌then◌else◌, bit_and,
}

pub data Summing : Type 0 where
  storing : Summing
  iterating : ℕ → ℕ → Summing
  joining : ℕ → Summing
  printed : ℕ → Summing

pub data Writer : Type 0 where
  spinning : Writer
  writing : ℕ → Writer
  over : Writer

pub record State : Type 0 where
  pub go : Bool
  pub buf : List ℕ
  pub main : Summing
  pub writer : Writer

abbrev pub start : State
start = record { go = false; buf = replicate 8 0; main = storing; writer = spinning }

-- A round of the loop, on what the slice's iterator gives.
abbrev pub iterate : ℕ → ℕ → Option ℕ → Summing
iterate i sum none = joining sum
iterate i sum (some b) = iterating (suc i) ((sum + b) % 2 ^ 32)

abbrev pub join : ℕ → Writer → Option Summing
join sum over = some (printed sum)
join sum spinning = none
join sum (writing i) = none

-- The slice is the buffer: what is read is what is there when it is read.
unfoldable pub main_from : Summing → State → Option State
main_from storing s = some (record s { go = true; main = iterating 0 0 })
main_from (iterating i sum) s = some (record s { main = iterate i sum (get_elem? s.buf i) })
main_from (joining sum) s = Option.map (λ (m : Summing). record s { main = m }) (join sum s.writer)
main_from (printed sum) s = none

-- `*raw = b`.
abbrev pub write_volatile : ℕ → List ℕ → List ℕ
write_volatile b [] = []
write_volatile b (x ∷ xs) = b ∷ xs

unfoldable pub writer_from : Writer → State → Option State
writer_from spinning s = if s.go then some (record s { writer = writing 0 }) else some s
writer_from (writing i) s =
    if ltb i 1000
    then some (record s { buf = write_volatile (bit_and i 255) s.buf; writer = writing (suc i) })
    else some (record s { writer = over })
writer_from over s = none

pub data Step (s u : State) : Type 0 where
  main_moves : main_from s.main s ≡ some u → Step s u
  writer_moves : writer_from s.writer s ≡ some u → Step s u

abbrev pub Reach : State → Type 0
Reach = Runs.Reach Step start
