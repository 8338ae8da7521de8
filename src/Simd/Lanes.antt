-- ===== src/Simd/Lanes.antt =====
-- rust-stdlib/pocs/090-out-of-range-simd-insert-index.rs, 091-out-of-range-simd-extract-index.rs and
-- 093-any-comparisons-return-non-boolean-values.rs: lane numbers and comparison results. The type
-- parameter of `idx_in_vec` is the size of a lane in bytes.
use security_audits.Base.{
  ℕ, zero, suc, ◌*◌, ◌/◌, ◌%◌, ◌^◌, ◌≤◌, ◌<◌, ◌≡◌, ◌↔◌, refl, Bool, false, not, arith, ltb, leb,
  ◌==◌, bit_and, if◌then◌else◌, Outcome, ◌>>◌, assert,
}
use native.Mathlib.Nat.{mod-lt, mod-eq_of_lt, one-le-pow}
use security_audits.Base.Bits.{bit_and_single}
use security_audits.Base.Int.{ℤ, pos, negsuc}

unfoldable pub idx_in_vec_buggy : ℕ → ℕ → ℕ
idx_in_vec_buggy size idx = bit_and idx (16 / size)

unfoldable pub idx_in_vec_fixed : ℕ → ℕ → ℕ
idx_in_vec_fixed size idx = idx % (16 / size)

-- `main` of 090.
unfoldable pub main_insert : Outcome (Unit {0})
unfolding idx_in_vec_buggy idx_in_vec_fixed
main_insert = do
  let lane_count_byte : ℕ = 16
  let buggy = idx_in_vec_buggy 1 16
  let fixed = idx_in_vec_fixed 1 16
  assert (buggy == 16)
  assert (leb lane_count_byte buggy)
  assert (fixed == 0)
  assert (ltb fixed lane_count_byte)

-- `main` of 091.
unfoldable pub main_extract : Outcome (Unit {0})
unfolding idx_in_vec_buggy idx_in_vec_fixed
main_extract = do
  let buggy_u8 = idx_in_vec_buggy 1 16
  let buggy_i8 = idx_in_vec_buggy 1 16
  let fixed_u8 = idx_in_vec_fixed 1 16
  assert (buggy_u8 == 16)
  assert (buggy_i8 == 16)
  assert (fixed_u8 == 0)
  assert (leb 16 buggy_u8)

abbrev pub vec_all_ge_stub : ℤ
vec_all_ge_stub = pos 1

-- `!` of an i32, and its test against 0.
abbrev pub bit_not : ℤ → ℤ
bit_not (pos n) = negsuc n
bit_not (negsuc n) = pos n

abbrev pub is_zero : ℤ → Bool
is_zero (pos n) = n == 0
is_zero (negsuc n) = false

unfoldable pub vec_any_lt_buggy : ℤ
vec_any_lt_buggy = bit_not vec_all_ge_stub

unfoldable pub vec_any_lt_fixed : ℤ
vec_any_lt_fixed = if is_zero vec_all_ge_stub then pos 1 else pos 0

-- `main` of 093.
unfoldable pub main_any : Outcome (Unit {0})
unfolding vec_any_lt_buggy vec_any_lt_fixed
main_any = do
  assert (elim vec_any_lt_buggy [ pos n ↦ false | negsuc n ↦ n == 1 ])
  assert (not (is_zero vec_any_lt_buggy))
  assert (is_zero vec_any_lt_fixed)

small_product : (t m : ℕ) → t < 2 → 1 ≤ m → (t * m < m) ↔ (t ≡ 0)
small_product zero m h p = (λ k. refl, λ e. omega arith)
small_product (suc zero) m h p = (λ k. absurd (omega arith), λ e. absurd (omega arith))
small_product (suc (suc t)) m h p = absurd (omega arith)

-- For a vector of 2 ^ k lanes, the fixed lane number exists and is the index where the index is in
-- range. The buggy one is 0 or the number of lanes: it is a lane exactly where that bit of the index
-- is not set.
pub idx_in_vec-lanes :
    (k size idx : ℕ)
    → 16 / size ≡ 2 ^ k
    → (idx_in_vec_fixed size idx < 2 ^ k)
      × (idx < 2 ^ k → idx_in_vec_fixed size idx ≡ idx)
      × (idx_in_vec_buggy size idx ≡ idx / 2 ^ k % 2 * 2 ^ k)
      × ((idx_in_vec_buggy size idx < 2 ^ k) ↔ (idx / 2 ^ k % 2 ≡ 0))
unfolding idx_in_vec_buggy idx_in_vec_fixed
idx_in_vec-lanes k size idx e =
    let positive = one-le-pow k 2 (omega arith) in
    let below : idx % 2 ^ k < 2 ^ k = mod-lt idx positive in
    let bit : idx / 2 ^ k % 2 < 2 = mod-lt (idx / 2 ^ k) (omega arith) in
    let single = bit_and_single k idx in
    rw e (
      below,
      λ h. mod-eq_of_lt h,
      single,
      rw single (small_product (idx / 2 ^ k % 2) (2 ^ k) bit positive),
    )
