-- ===== src/Xous/Buffer.antt =====
-- The zeroed buffers `[0u8; n]` of the Xous programs.
use native.Mathlib.Numerals.{unary_clauses}
use security_audits.Base.{
  ℕ, zero, suc, ◌≤◌, min, ◌≡◌, refl, ap, List, [], ◌∷◌, ◌++◌, arith, length, take, drop, replicate,
  zip_copy, length-replicate,
}

unfoldable pub zeroed : ℕ → List ℕ
zeroed n = replicate n 0

pub length-zeroed : (n : ℕ) → length (zeroed n) ≡ n
unfolding zeroed
length-zeroed n = length-replicate n 0

pub take-zeroed : (k n : ℕ) → k ≤ n → take k (zeroed n) ≡ zeroed k
unfolding zeroed
take-zeroed zero n h = refl
take-zeroed (suc k) zero h = absurd (omega arith)
take-zeroed (suc k) (suc n) h = ap (◌∷◌ 0) (take-zeroed k n (omega arith))

pub zip_copy-zeroed :
    (buf : List ℕ) (k : ℕ) → zip_copy buf (zeroed k) ≡ zeroed (min k (length buf)) ++ drop k buf
unfolding zeroed
zip_copy-zeroed [] zero = refl
zip_copy-zeroed [] (suc k) = simp unary_clauses
zip_copy-zeroed (b ∷ buf) zero = simp unary_clauses
zip_copy-zeroed (b ∷ buf) (suc k) = simp unary_clauses (ap (◌∷◌ 0) (zip_copy-zeroed buf k))

-- Bytes copied into a zeroed buffer: as many as fit, then zeros.
pub zip_copy_into_zeroed :
    (n : ℕ) (s : List ℕ) → take (min n (length s)) (zip_copy (zeroed n) s) ≡ take n s
unfolding zeroed
zip_copy_into_zeroed zero s = simp unary_clauses
zip_copy_into_zeroed (suc n) [] = simp unary_clauses
zip_copy_into_zeroed (suc n) (b ∷ s) = simp unary_clauses (ap (◌∷◌ b) (zip_copy_into_zeroed n s))
