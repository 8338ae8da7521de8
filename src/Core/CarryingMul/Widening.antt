-- ===== src/Core/CarryingMul/Widening.antt =====
-- The two widenings of rust-stdlib/pocs/182-unchecked-isize-widening-arithmetic-overflows.rs agree:
-- the arithmetic is followed on the bits of a `u128`.
use security_audits.Base.{
  ℕ, ◌+◌, ◌-◌, ◌*◌, ◌/◌, ◌%◌, ◌^◌, ◌≤◌, ◌<◌, ◌≡◌, refl, sym, ◌∙◌, ap, ap₂, arith, done, Build,
  checked, unchecked,
}
use native.Mathlib.Nat.{mul-le-mul, mod-eq_of_lt}
use security_audits.Base.Int.{ℤ, pos, negsuc, ◌+ℤ◌, ◌*ℤ◌}
use security_audits.Base.Words.{usize_mod}
use security_audits.Base.Signed.{pattern_of, value_of, held}
use security_audits.Core.CarryingMul.{
  u128_mod, isize_half, i128_half, as_u128, shift_down, carrying_mul_add_unsigned_widening,
  carrying_mul_add_signed_widening,
}

-- The bits of an integer in a `u128`.
abbrev bits : ℤ → ℕ
bits = pattern_of u128_mod

as_u128-bits : (w : ℕ) → w < usize_mod → as_u128 w ≡ bits (value_of isize_half w)
as_u128-bits w h = ground arith

bits-add : (x y : ℤ) → bits (x +ℤ y) ≡ (bits x + bits y) % u128_mod
bits-add (pos n) (pos m) = ground arith
bits-add (pos n) (negsuc m) = ground arith
bits-add (negsuc n) (pos m) = ground arith
bits-add (negsuc n) (negsuc m) = ground arith

-- An integer of at most `half` in size.
abbrev Small : ℕ → ℤ → Type 0
Small half (pos n) = n ≤ half
Small half (negsuc n) = n + 1 ≤ half

mul_small : (n m : ℕ) → n ≤ isize_half → m ≤ isize_half → n * m ≤ 2 ^ 126
mul_small n m p q = mul-le-mul p q

-- The products by sign, with the bits of a negative factor as a number of their own.
mul_pos_neg :
    (n m t : ℕ)
    → t + m + 1 ≡ u128_mod
    → n * (m + 1) ≤ 2 ^ 126
    → bits (pos n *ℤ negsuc m) ≡ n * t % u128_mod
mul_pos_neg n m t e small = ground (arith, ap (λ (s : ℕ). n * s) e)

mul_neg_pos :
    (n m t : ℕ)
    → t + n + 1 ≡ u128_mod
    → (n + 1) * m ≤ 2 ^ 126
    → bits (negsuc n *ℤ pos m) ≡ t * m % u128_mod
mul_neg_pos n m t e small = ground (arith, ap (λ (s : ℕ). s * m) e)

mul_neg_neg :
    (n m t u : ℕ)
    → t + n + 1 ≡ u128_mod
    → u + m + 1 ≡ u128_mod
    → n + m + 2 ≤ u128_mod
    → (n + 1) * (m + 1) ≤ 2 ^ 126
    → bits (negsuc n *ℤ negsuc m) ≡ t * u % u128_mod
mul_neg_neg n m t u e e' room small =
    ground (arith, ap (λ (s : ℕ). s * u) e, ap (λ (s : ℕ). (n + 1) * s) e')

bits-mul :
    (x y : ℤ) → Small isize_half x → Small isize_half y → bits (x *ℤ y) ≡ bits x * bits y % u128_mod
bits-mul (pos n) (pos m) p q = ground (arith, mul_small n m p q)
bits-mul (pos n) (negsuc m) p q =
    rw
      (
        mod-eq_of_lt {n = n} {m = u128_mod} (omega arith),
        mod-eq_of_lt {n = m} {m = u128_mod} (omega arith),
      )
      (mul_pos_neg n m (u128_mod - 1 - m) (omega arith) (mul_small n (m + 1) p q))
bits-mul (negsuc n) (pos m) p q =
    rw
      (
        mod-eq_of_lt {n = n} {m = u128_mod} (omega arith),
        mod-eq_of_lt {n = m} {m = u128_mod} (omega arith),
      )
      (mul_neg_pos n m (u128_mod - 1 - n) (omega arith) (mul_small (n + 1) m p q))
bits-mul (negsuc n) (negsuc m) p q =
    rw
      (
        mod-eq_of_lt {n = n} {m = u128_mod} (omega arith),
        mod-eq_of_lt {n = m} {m = u128_mod} (omega arith),
      )
      (mul_neg_neg n m (u128_mod - 1 - n) (u128_mod - 1 - m) (omega arith) (omega arith)
        (omega arith) (mul_small (n + 1) (m + 1) p q))

value-Small : (w : ℕ) → w < usize_mod → Small isize_half (value_of isize_half w)
value-Small w h = ground arith

-- Within the product's range nothing overflows an `i128`.
Small-add : (k : ℕ) (x y : ℤ) → Small k x → Small isize_half y → Small (k + isize_half) (x +ℤ y)
Small-add k (pos n) (pos m) p q = ground arith
Small-add k (pos n) (negsuc m) p q = ground arith
Small-add k (negsuc n) (pos m) p q = ground arith
Small-add k (negsuc n) (negsuc m) p q = ground arith

Small-mul : (x y : ℤ) → Small isize_half x → Small isize_half y → Small (2 ^ 126) (x *ℤ y)
Small-mul (pos n) (pos m) p q = ground (arith, mul_small n m p q)
Small-mul (pos n) (negsuc m) p q = ground (arith, mul_small n (m + 1) p q)
Small-mul (negsuc n) (pos m) p q = ground (arith, mul_small (n + 1) m p q)
Small-mul (negsuc n) (negsuc m) p q = ground (arith, mul_small (n + 1) (m + 1) p q)

held-Small : (build : Build) (z : ℤ) → Small (2 ^ 126 + 2 ^ 64) z → held build i128_half z ≡ done z
held-Small checked (pos n) h = ground arith
held-Small checked (negsuc n) h = ground arith
held-Small unchecked (pos n) h = ground arith
held-Small unchecked (negsuc n) h = ground arith

-- The two halves of an `i128` are those of its bits.
halves :
    (z : ℤ)
    → Small (2 ^ 126 + 2 ^ 64) z
    → (pattern_of usize_mod z ≡ bits z % usize_mod)
      × (pattern_of usize_mod (shift_down z) ≡ bits z / usize_mod % usize_mod)
halves (pos n) h = ground arith
halves (negsuc n) h = ground arith

Small-mono : {k l : ℕ} (z : ℤ) → k ≤ l → Small k z → Small l z
Small-mono (pos n) h p = omega arith
Small-mono (negsuc n) h p = omega arith

-- The signed double width computes this integer.
abbrev product_sum : ℕ → ℕ → ℕ → ℕ → ℤ
product_sum a b c d =
    value_of isize_half a *ℤ value_of isize_half b +ℤ value_of isize_half c +ℤ value_of isize_half d

module _ (a b c d : ℕ) (ha : a < usize_mod) (hb : b < usize_mod) (hc : c < usize_mod)
    (hd : d < usize_mod) where
  abbrev x : ℤ
  x = value_of isize_half a *ℤ value_of isize_half b

  abbrev y : ℤ
  y = value_of isize_half c

  abbrev z : ℤ
  z = value_of isize_half d

  x-Small : Small (2 ^ 126) x
  x-Small = Small-mul _ _ (value-Small a ha) (value-Small b hb)

  sum-Small : Small (2 ^ 126 + 2 ^ 63) (x +ℤ y)
  sum-Small = Small-add (2 ^ 126) x y x-Small (value-Small c hc)

  total-Small : Small (2 ^ 126 + 2 ^ 64) (x +ℤ y +ℤ z)
  total-Small = Small-add (2 ^ 126 + 2 ^ 63) (x +ℤ y) z sum-Small (value-Small d hd)

  signed_widening_lem :
      (build : Build)
      → carrying_mul_add_signed_widening build a b c d
        ≡ done (pattern_of usize_mod (x +ℤ y +ℤ z), pattern_of usize_mod (shift_down (x +ℤ y +ℤ z)))
  unfolding carrying_mul_add_signed_widening
  signed_widening_lem build =
      rw
        (
          held-Small build x (Small-mono x (omega arith) x-Small),
          held-Small build (x +ℤ y) (Small-mono (x +ℤ y) (omega arith) sum-Small),
          held-Small build (x +ℤ y +ℤ z) total-Small,
        )
        refl

  wide-bits :
      ((as_u128 a * as_u128 b % u128_mod + as_u128 c) % u128_mod + as_u128 d) % u128_mod
      ≡ bits (x +ℤ y +ℤ z)
  wide-bits =
      let product : bits x ≡ as_u128 a * as_u128 b % u128_mod =
        bits-mul _ _ (value-Small a ha) (value-Small b hb)
        ∙ ap₂ (λ (s t : ℕ). s * t % u128_mod) (sym (as_u128-bits a ha)) (sym (as_u128-bits b hb)) in
      let sum : bits (x +ℤ y) ≡ (as_u128 a * as_u128 b % u128_mod + as_u128 c) % u128_mod =
        bits-add x y ∙ ap₂ (λ (s t : ℕ). (s + t) % u128_mod) product (sym (as_u128-bits c hc)) in
      sym
        (bits-add (x +ℤ y) z ∙ ap₂ (λ (s t : ℕ). (s + t) % u128_mod) sum (sym (as_u128-bits d hd)))

  -- Widening through `u128` gives the same two words as the signed double width, for all operands
  -- and in every build; the signed arithmetic never overflows.
  pub unsigned-signed_widening :
      (build : Build)
      → carrying_mul_add_signed_widening build a b c d
        ≡ done (carrying_mul_add_unsigned_widening a b c d)
  unfolding carrying_mul_add_unsigned_widening
  unsigned-signed_widening build =
      let (low, high) = halves (x +ℤ y +ℤ z) total-Small in
      signed_widening_lem build
      ∙ ap done (
          ap₂ (λ (s t : ℕ). (s, t)) (low ∙ ap (λ (t : ℕ). t % usize_mod) (sym wide-bits))
            (high ∙ ap (λ (t : ℕ). t / usize_mod % usize_mod) (sym wide-bits)))
