-- ===== src/Base/Signed.antt =====
-- The signed machine integers: `half` is 2 ^ (w - 1), a value is an integer from -half to half - 1, and
-- a bit pattern is a number below 2 ^ w.
use Prim.Native.Nat.{ℕ, ◌-◌, ◌*◌, ◌%◌, ◌<◌}
use mathlib.Core.Path.{◌≡◌, refl, ap}
use mathlib.Core.Bool.{Bool, true}
use native.Mathlib.Nat.{mod-eq_of_lt}
use native.Mathlib.Omega.{arith}
use security_audits.Base.Tests.{ltb, if◌then◌else◌}
use security_audits.Base.Failure.{Outcome, done, panic, Build, checked, unchecked}
use security_audits.Base.Int.{ℤ, pos, negsuc, ◌+ℤ◌, ◌-ℤ◌, ◌*ℤ◌}

abbrev pub fits : ℕ → ℤ → Bool
fits half (pos n) = ltb n half
fits half (negsuc n) = ltb n half

-- `as` into an unsigned type with `m` values.
abbrev pub pattern_of : ℕ → ℤ → ℕ
pattern_of m (pos n) = n % m
pattern_of m (negsuc n) = m - 1 - n % m

-- The value of a bit pattern.
abbrev pub value_of : ℕ → ℕ → ℤ
value_of half w = if ltb w half then pos w else negsuc (2 * half - w - 1)

-- The result of an operation that gives `z` before it is held to the width.
abbrev pub held : Build → ℕ → ℤ → Outcome ℤ
held checked half z = if fits half z then done z else panic
held unchecked half z = done (value_of half (pattern_of (2 * half) z))

abbrev pub plus_int : Build → ℕ → ℤ → ℤ → Outcome ℤ
plus_int b half x y = held b half (x +ℤ y)

abbrev pub minus_int : Build → ℕ → ℤ → ℤ → Outcome ℤ
minus_int b half x y = held b half (x -ℤ y)

abbrev pub times_int : Build → ℕ → ℤ → ℤ → Outcome ℤ
times_int b half x y = held b half (x *ℤ y)

-- A value in range survives its bit pattern, and every build holds it as it is.
pub value_of-pattern_of :
    (half : ℕ) (z : ℤ) → fits half z ≡ true → value_of half (pattern_of (2 * half) z) ≡ z
value_of-pattern_of half (pos n) h =
    let below : n < half = ground arith in
    let same : n % (2 * half) ≡ n = mod-eq_of_lt (omega arith) in rw same (ground arith)
value_of-pattern_of half (negsuc n) h =
    let below : n < half = ground arith in
    let same : n % (2 * half) ≡ n = mod-eq_of_lt (omega arith) in rw same (ground arith)

pub held-fits : (build : Build) (half : ℕ) (z : ℤ) → fits half z ≡ true → held build half z ≡ done z
held-fits checked half z h = rw h refl
held-fits unchecked half z h = ap done (value_of-pattern_of half z h)
