-- ===== src/Base/Bits.antt =====
-- `&` with a mask as arithmetic, at every width: a mask of low ones, a single bit, a run of ones.
use Prim.Native.Nat.{
  ℕ, zero, suc, ◌+◌, ◌-◌, ◌*◌, ◌/◌, ◌%◌, ◌^◌, ◌≤◌, ◌<◌, min, bit_and, digits, bit_and-bitwise,
}
use mathlib.Core.Path.{◌≡◌, refl, sym, ap, ◌∙◌}
use mathlib.Core.WellFounded
use native.Mathlib.Nat.{
  pow-suc, one-le-pow, div-div-eq-div-mul, mul_comm, div-add-mod, div-one, mul-one, one-mul,
  mod-eq_of_lt, add-mul-mod_self_left, mod-lt,
}
use native.Mathlib.Omega.{arith}
use security_audits.Base.Order.{lt_wf}

-- Any fuel that covers the first argument gives the same digits.
abbrev and_fueled : ℕ → ℕ → ℕ → ℕ
and_fueled n a b = digits (λ y. zero) min n a b

and_fueled_agree : (n m a b : ℕ) → a ≤ n → a ≤ m → and_fueled n a b ≡ and_fueled m a b
and_fueled_agree zero zero a b p q = refl
and_fueled_agree zero (suc m) zero b p q = refl
and_fueled_agree zero (suc m) (suc a) b p q = absurd (omega arith)
and_fueled_agree (suc n) zero zero b p q = refl
and_fueled_agree (suc n) zero (suc a) b p q = absurd (omega arith)
and_fueled_agree (suc n) (suc m) zero b p q = refl
and_fueled_agree (suc n) (suc m) (suc a) b p q =
    omega (arith, and_fueled_agree n m (suc a / 2) (b / 2) (omega arith) (omega arith))

-- One binary digit at a time.
pub bit_and_digit : (a b : ℕ) → bit_and a b ≡ bit_and (a / 2) (b / 2) * 2 + min (a % 2) (b % 2)
bit_and_digit zero b = omega (arith, bit_and-bitwise 0 b, bit_and-bitwise 0 (b / 2))
bit_and_digit (suc a) b = omega (
  arith,
  bit_and-bitwise (suc a) b,
  bit_and-bitwise (suc a / 2) (b / 2),
  and_fueled_agree a (suc a / 2) (suc a / 2) (b / 2) (omega arith) (omega arith),
)

pub bit_and-zero : (a : ℕ) → bit_and a 0 ≡ 0
bit_and-zero a = WellFounded.induction lt_wf {C = λ k. bit_and k 0 ≡ 0} a λ k ih. descend k ih
  where
    descend : (k : ℕ) → ((m : ℕ) → m < k → bit_and m 0 ≡ 0) → bit_and k 0 ≡ 0
    descend zero ih = refl
    descend (suc k) ih = omega (arith, bit_and_digit (suc k) 0, ih (suc k / 2) (omega arith))

-- A mask shifted left by `k` reads the other operand shifted right.
pub bit_and_shifted : (k a b : ℕ) → bit_and a (b * 2 ^ k) ≡ bit_and (a / 2 ^ k) b * 2 ^ k
bit_and_shifted zero a b = simp (div-one, mul-one)
bit_and_shifted (suc k) a b =
    let double : b * 2 ^ suc k ≡ 2 * (b * 2 ^ k) =
      omega (arith, ap (λ (t : ℕ). b * t) (pow-suc 2 k)) in
    let halved : a / 2 ^ suc k ≡ a / 2 / 2 ^ k = omega (
      arith,
      ap (λ (t : ℕ). a / t) (pow-suc 2 k),
      ap (λ (t : ℕ). a / t) (mul_comm 2 (2 ^ k)),
      div-div-eq-div-mul a 2 (2 ^ k),
    ) in
    ground (
      arith,
      double,
      halved,
      pow-suc 2 k,
      bit_and_digit a (2 * (b * 2 ^ k)),
      bit_and_shifted k (a / 2) b,
      ap (λ (t : ℕ). bit_and (a / 2 / 2 ^ k) b * t) (pow-suc 2 k),
    )

mod_double : (a p : ℕ) → 0 < p → a % (2 * p) ≡ 2 * (a / 2 % p) + a % 2
mod_double a p h =
    let low : ℕ = 2 * (a / 2 % p) + a % 2 in
    let bound : a / 2 % p < p = mod-lt (a / 2) h in
    let split : a ≡ low + 2 * p * (a / 2 / p) = omega (arith, div-add-mod (a / 2) p) in
    ap (λ (t : ℕ). t % (2 * p)) split
    ∙ add-mul-mod_self_left low (2 * p) (a / 2 / p)
    ∙ mod-eq_of_lt (omega arith)

-- A mask of `k` low ones keeps the remainder by `2 ^ k`.
pub bit_and_ones : (k a : ℕ) → bit_and a (2 ^ k - 1) ≡ a % 2 ^ k
bit_and_ones zero a = omega (arith, bit_and-zero a)
bit_and_ones (suc k) a =
    let doubled : 2 ^ suc k ≡ 2 * 2 ^ k = omega (arith, pow-suc 2 k) in
    rw doubled (
      ground (
        arith,
        bit_and_digit a (2 * 2 ^ k - 1),
        one-le-pow k 2,
        mod_double a (2 ^ k),
        bit_and_ones k (a / 2),
      ))

-- A mask of a single bit.
pub bit_and_single : (k a : ℕ) → bit_and a (2 ^ k) ≡ a / 2 ^ k % 2 * 2 ^ k
bit_and_single k a =
    ap (bit_and a) (sym (one-mul (2 ^ k)))
    ∙ bit_and_shifted k a 1
    ∙ ap (λ (t : ℕ). t * 2 ^ k) (bit_and_ones 1 (a / 2 ^ k))

-- A mask of `w` ones above `k` zeros.
pub bit_and_window : (k w a : ℕ) → bit_and a ((2 ^ w - 1) * 2 ^ k) ≡ a / 2 ^ k % 2 ^ w * 2 ^ k
bit_and_window k w a =
    bit_and_shifted k a (2 ^ w - 1) ∙ ap (λ (t : ℕ). t * 2 ^ k) (bit_and_ones w (a / 2 ^ k))
