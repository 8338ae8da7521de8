-- ===== src/Core/CarryingMul.antt =====
-- rust-stdlib/pocs/182-unchecked-isize-widening-arithmetic-overflows.rs. An `isize` is given by its
-- bit pattern, a number below 2 ^ 64.
pub mod Widening
use security_audits.Base.{
  ℕ, ◌+◌, ◌-◌, ◌*◌, ◌/◌, ◌%◌, ◌^◌, ◌≤◌, ◌<◌, ◌≡◌, refl, sym, ◌∙◌, ap, ap₂, Bool, true, not, ◌&&◌,
  arith, ltb, ◌==◌, if◌then◌else◌, Outcome, done, panic, ◌>>=◌, ◌>>◌, assert, Build, checked,
  unchecked,
}
use security_audits.Base.Int.{ℤ, pos, negsuc, ◌+ℤ◌, ◌*ℤ◌}
use security_audits.Base.Words.{usize_mod}
use security_audits.Base.Signed.{fits, pattern_of, value_of, held, plus_int, times_int}

abbrev pub u128_mod : ℕ
u128_mod = 2 ^ 128

abbrev pub isize_half : ℕ
isize_half = 2 ^ 63

abbrev pub i128_half : ℕ
i128_half = 2 ^ 127

-- `a as u128`: the sign bit is repeated.
abbrev pub as_u128 : ℕ → ℕ
as_u128 w = if ltb w isize_half then w else w + (u128_mod - usize_mod)

unfoldable pub carrying_mul_add_unsigned_widening : ℕ → ℕ → ℕ → ℕ → ℕ × ℕ
carrying_mul_add_unsigned_widening a b c d =
    let product = (as_u128 a * as_u128 b) % u128_mod in
    let wide = ((product + as_u128 c) % u128_mod + as_u128 d) % u128_mod in
    (wide % usize_mod, wide / usize_mod % usize_mod)

-- `wide >> usize::BITS` of an `i128`, rounding down.
abbrev pub shift_down : ℤ → ℤ
shift_down (pos n) = pos (n / usize_mod)
shift_down (negsuc n) = negsuc (n / usize_mod)

unfoldable pub carrying_mul_add_signed_widening : Build → ℕ → ℕ → ℕ → ℕ → Outcome (ℕ × ℕ)
carrying_mul_add_signed_widening build a b c d = do
  product ← times_int build i128_half (value_of isize_half a) (value_of isize_half b)
  sum ← plus_int build i128_half product (value_of isize_half c)
  wide ← plus_int build i128_half sum (value_of isize_half d)
  done (pattern_of usize_mod wide, pattern_of usize_mod (shift_down wide))

abbrev pub pair_eq : ℕ × ℕ → ℕ × ℕ → Bool
pair_eq p q = p.0 == q.0 && p.1 == q.1

-- `main`: the operands are -1, -1, 0 and 0; the second assertion is `assert_ne!`.
unfoldable pub main : Build → Outcome (Unit {0})
unfolding carrying_mul_add_unsigned_widening carrying_mul_add_signed_widening
main build = do
  let minus_one : ℕ = usize_mod - 1
  let buggy = carrying_mul_add_unsigned_widening minus_one minus_one 0 0
  correct ← carrying_mul_add_signed_widening build minus_one minus_one 0 0
  assert (pair_eq correct (1, 0))
  assert (not (pair_eq buggy correct))
