-- ===== src/Core/Duration.antt =====
-- rust-stdlib/pocs/047-zero-denominator-in-duration-floor-division.rs and
-- 048-zero-denominator-in-duration-ceil-division.rs: the divisions of two durations in nanoseconds.
use security_audits.Base.{
  ℕ, zero, suc, ◌+◌, ◌*◌, ◌/◌, ◌%◌, ◌≤◌, ◌<◌, ◌≡◌, refl, arith, ◌==◌, if◌then◌else◌, Outcome, done,
  panic, assert, panicked,
}
use native.Mathlib.Nat.{div-add-mod', mod-lt, add-mul}

abbrev pub nanos_per_sec : ℕ
nanos_per_sec = 1000000000

unfoldable pub buggy_div_duration_floor : ℕ → ℕ → Outcome ℕ
buggy_div_duration_floor self_nanos rhs_nanos =
    if rhs_nanos == 0 then panic else done (self_nanos / rhs_nanos)

-- `div_ceil` adds 1 to the quotient where there is a remainder.
unfoldable pub buggy_div_duration_ceil : ℕ → ℕ → Outcome ℕ
buggy_div_duration_ceil self_nanos rhs_nanos =
    if rhs_nanos == 0
    then panic
    else done
        (if self_nanos % rhs_nanos == 0 then self_nanos / rhs_nanos else self_nanos / rhs_nanos + 1)

-- `main` of 047.
unfoldable pub main_floor : Outcome (Unit {0})
unfolding buggy_div_duration_floor
main_floor = assert (panicked (buggy_div_duration_floor (1 * nanos_per_sec) 0))

-- `main` of 048.
unfoldable pub main_ceil : Outcome (Unit {0})
unfolding buggy_div_duration_ceil
main_ceil = assert (panicked (buggy_div_duration_ceil (1 * nanos_per_sec) 0))

quotient : (s r : ℕ) → s / r * r + s % r ≡ s
quotient = div-add-mod'

abbrev ceil_quotient : ℕ → ℕ → ℕ
ceil_quotient q rem = if rem == 0 then q else q + 1

ceil_quotient-bounds :
    (q r rem s : ℕ)
    → q * r + rem ≡ s
    → rem < r
    → (s ≤ ceil_quotient q rem * r) × (ceil_quotient q rem * r < s + r)
ceil_quotient-bounds q r zero s e h = (omega arith, omega arith)
ceil_quotient-bounds q r (suc rem) s e h =
    let up : ceil_quotient q (suc rem) ≡ q + 1 = ground arith in
    let more : (q + 1) * r ≡ q * r + r = omega (arith, add-mul q 1 r) in
    (rw up (omega (arith, more)), rw up (omega (arith, more)))

-- By the zero duration both divisions panic. By any other, both return, and their results are the
-- greatest multiple that is not above the first duration and the least that is not below it.
pub div_duration-cases :
    (self_nanos : ℕ)
    → (buggy_div_duration_floor self_nanos 0 ≡ panic)
      × (buggy_div_duration_ceil self_nanos 0 ≡ panic)
      × ((rhs_nanos : ℕ)
          → 0 < rhs_nanos
          → (q c : ℕ) × (buggy_div_duration_floor self_nanos rhs_nanos ≡ done q)
            × (q * rhs_nanos ≤ self_nanos)
            × (self_nanos < q * rhs_nanos + rhs_nanos)
            × (buggy_div_duration_ceil self_nanos rhs_nanos ≡ done c)
            × (self_nanos ≤ c * rhs_nanos)
            × (c * rhs_nanos < self_nanos + rhs_nanos))
unfolding buggy_div_duration_floor buggy_div_duration_ceil
div_duration-cases self_nanos = (
  refl,
  refl,
  λ rhs_nanos h.
      let rem : self_nanos % rhs_nanos < rhs_nanos = mod-lt self_nanos h in
      let whole = quotient self_nanos rhs_nanos in
      let (low, high) =
        ceil_quotient-bounds (self_nanos / rhs_nanos) rhs_nanos (self_nanos % rhs_nanos) self_nanos
          whole rem in
      (
        self_nanos / rhs_nanos,
        ceil_quotient (self_nanos / rhs_nanos) (self_nanos % rhs_nanos),
        ground arith,
        omega arith,
        omega arith,
        ground arith,
        low,
        high,
      ),
)
