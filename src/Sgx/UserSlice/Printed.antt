-- ===== src/Sgx/UserSlice/Printed.antt =====
-- The runs of 071 that print a sum.

use security_audits.Base.Runs.{here, next}
use security_audits.Base.{
  ℕ, zero, suc, ◌+◌, ◌%◌, ◌^◌, ◌≤◌, ◌≡◌, ◌↔◌, refl, sym, ap, subst, arith, true, ◌∷◌, Option, some,
  get_elem?, ◌⊎◌, inl, inr, replicate, bit_and, lt→ltb,
}
use security_audits.Base.Bits.{bit_and_ones}
use security_audits.Sgx.UserSlice.Sums.{Small, Reach-Good}
use security_audits.Sgx.UserSlice.{
  Summing, iterating, joining, printed, writing, State, main_from, writer_from, main_moves,
  writer_moves, Reach,
}

below_or : (i j : ℕ) → i ≤ suc j → (i ≤ j) ⊎ (i ≡ suc j)
below_or zero j h = inl (omega arith)
below_or (suc zero) zero h = inr refl
below_or (suc (suc i)) zero h = absurd (omega (arith, h))
below_or (suc i) (suc j) h = elim (below_or i j (omega (arith, h))) [
  | inl l ↦ inl (omega (arith, l))
  | inr e ↦ inr (ap suc e)
]

-- After `i` writes.
abbrev at_write : ℕ → Summing → ℕ → State
at_write b m i = record { go = true; buf = b ∷ replicate 7 0; main = m; writer = writing i }

abbrev last : ℕ → ℕ
last zero = 0
last (suc i) = bit_and i 255

writes_more :
    (m : Summing) (i j : ℕ)
    → i ≤ j
    → j ≤ 1000
    → Reach (at_write (last i) m i)
    → Reach (at_write (last j) m j)
unfolding writer_from
writes_more m i zero h k r = subst (λ n. Reach (at_write (last n) m n)) (omega (arith, h)) r
writes_more m i (suc j) h k r = elim (below_or i j h) [
  | inr e ↦ subst (λ n. Reach (at_write (last n) m n)) e r
  | inl l ↦
      next (writes_more m i j l (omega (arith, k)) r)
        (writer_moves (rw (lt→ltb j 1000 (omega (arith, k))) refl))
]

same : (b : ℕ) → b ≤ 255 → (b + 0) % 2 ^ 32 ≡ b
same b h = grind (arith, h)

first_sum : (b : ℕ) → b ≤ 255 → (0 + b) % 2 ^ 32 ≡ b
first_sum b h = grind (arith, h)

bit_and_byte : (b : ℕ) → b ≤ 255 → bit_and b 255 ≡ b
bit_and_byte b h = grind (arith, bit_and_ones 8 b, h)

reads_zero :
    (b i k : ℕ)
    → b ≤ 255
    → get_elem? (b ∷ replicate 7 0) k ≡ some 0
    → Reach (at_write b (iterating k b) i)
    → Reach (at_write b (iterating (suc k) b) i)
unfolding main_from
reads_zero b i k h e r =
    next r
      (main_moves (rw e (ap (λ n. Option.some (at_write b (iterating (suc k) n) i)) (same b h))))

reads :
    (b i : ℕ) → b ≤ 255 → Reach (at_write b (iterating 0 0) i) → Reach (at_write b (joining b) i)
unfolding main_from
reads b i h r =
    let r1 : Reach (at_write b (iterating 1 b) i) =
      next r (main_moves (ap (λ n. Option.some (at_write b (iterating 1 n) i)) (first_sum b h))) in
    let r2 = reads_zero b i 1 h refl r1 in
    let r3 = reads_zero b i 2 h refl r2 in
    let r4 = reads_zero b i 3 h refl r3 in
    let r5 = reads_zero b i 4 h refl r4 in
    let r6 = reads_zero b i 5 h refl r5 in
    let r7 = reads_zero b i 6 h refl r6 in
    let r8 = reads_zero b i 7 h refl r7 in next r8 (main_moves refl)

Reach-joining : (b : ℕ) → b ≤ 255 → Reach (at_write (last 1000) (joining b) 1000)
unfolding main_from writer_from
Reach-joining b h =
    let r0 : Reach (at_write 0 (iterating 0 0) 0) =
      next (next here (main_moves refl)) (writer_moves refl) in
    let r1 = writes_more (iterating 0 0) 0 (suc b) (omega arith) (omega (arith, h)) r0 in
    let r2 : Reach (at_write b (iterating 0 0) (suc b)) =
      subst (λ x. Reach (at_write x (iterating 0 0) (suc b))) (bit_and_byte b h) r1 in
    let r3 : Reach (at_write (last (suc b)) (joining b) (suc b)) =
      subst (λ x. Reach (at_write x (joining b) (suc b))) (sym (bit_and_byte b h))
        (reads b (suc b) h r2) in
    writes_more (joining b) (suc b) 1000 (omega (arith, h)) (omega arith) r3

-- Where each access of a byte is one step, the program can print every sum up to 255 and no other.
pub Reach-printed_iff : (sum : ℕ) → ((s : State) × Reach s × (s.main ≡ printed sum)) ↔ (sum ≤ 255)
unfolding main_from writer_from
Reach-printed_iff sum = (
  λ t. subst Small t.2 (Reach-Good t.0 t.1).sum,
  λ h. (_, next (next (Reach-joining sum h) (writer_moves refl)) (main_moves refl), refl),
)
