-- ===== src/Base/Words.antt =====
-- The unsigned machine words: their sizes, and the operations that wrap, saturate or fail.
use Prim.Native.Nat.{ℕ, ◌+◌, ◌-◌, ◌*◌, ◌%◌, ◌^◌, ◌≤◌, ◌<◌}
use mathlib.Core.Option.{Option, none, some}
use native.Mathlib.Omega.{arith}
use native.Mathlib.Nat.{mod-eq_of_lt, add-mod_right}
use mathlib.Core.Path.{◌≡◌, ap, ◌∙◌}
use security_audits.Base.Tests.{ltb, leb, if◌then◌else◌}
use security_audits.Base.Failure.{Outcome, done, panic, Build, checked, unchecked}

abbrev pub u8_mod : ℕ
u8_mod = 2 ^ 8

abbrev pub u16_mod : ℕ
u16_mod = 2 ^ 16

abbrev pub u32_mod : ℕ
u32_mod = 2 ^ 32

-- `usize` is 64 bits wide.
abbrev pub usize_mod : ℕ
usize_mod = 2 ^ 64

-- `+` and `-` of a type with `m` values, as the build compiles them.
abbrev pub plus : Build → ℕ → ℕ → ℕ → Outcome ℕ
plus checked m a b = if ltb (a + b) m then done (a + b) else panic
plus unchecked m a b = done ((a + b) % m)

abbrev pub minus : Build → ℕ → ℕ → ℕ → Outcome ℕ
minus checked m a b = if leb b a then done (a - b) else panic
minus unchecked m a b = done ((a + m - b) % m)

abbrev pub times : Build → ℕ → ℕ → ℕ → Outcome ℕ
times checked m a b = if ltb (a * b) m then done (a * b) else panic
times unchecked m a b = done ((a * b) % m)

abbrev pub wrapping_add : ℕ → ℕ → ℕ → ℕ
wrapping_add m a b = (a + b) % m

abbrev pub wrapping_sub : ℕ → ℕ → ℕ → ℕ
wrapping_sub m a b = (a + m - b) % m

abbrev pub saturating_mul : ℕ → ℕ → ℕ → ℕ
saturating_mul m a b = if ltb (a * b) m then a * b else m - 1

abbrev pub checked_add : ℕ → ℕ → ℕ → Option ℕ
checked_add m a b = if ltb (a + b) m then some (a + b) else none

-- In range, an operation gives the plain result in every build.
pub plus-fits : (b : Build) (m x y : ℕ) → x + y < m → plus b m x y ≡ done (x + y)
plus-fits checked m x y h = ground arith
plus-fits unchecked m x y h = rw (mod-eq_of_lt h)

pub times-fits : (b : Build) (m x y : ℕ) → x * y < m → times b m x y ≡ done (x * y)
times-fits checked m x y h = ground arith
times-fits unchecked m x y h = rw (mod-eq_of_lt h)

pub minus-fits : (b : Build) (m x y : ℕ) → y ≤ x → x < m → minus b m x y ≡ done (x - y)
minus-fits checked m x y h k = ground arith
minus-fits unchecked m x y h k =
    ap done
      (ap (λ (t : ℕ). t % m) (omega arith) ∙ add-mod_right (x - y) m ∙ mod-eq_of_lt (omega arith))
