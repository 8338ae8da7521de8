-- ===== src/Sgx/UserSlice/Sums.antt =====
-- What 071 has summed, in every interleaving.
use mathlib.Core.Option
use security_audits.Base.Runs.{here, next}
use security_audits.Base.{
  ℕ, zero, suc, ◌≤◌, ◌≡◌, refl, sym, ap, subst, arith, Bool, true, false, List, ◌∷◌, Option, none,
  some, get_elem?, ltb, if◌then◌else◌, replicate, bit_and,
}
use security_audits.Base.Bits.{bit_and_ones}
use security_audits.Sgx.UserSlice.{
  iterate, join, Summing, storing, iterating, joining, printed, Writer, spinning, writing, over,
  State, main_from, write_volatile, writer_from, main_moves, writer_moves, Reach,
}

-- One byte is written; the others stay 0.
pub record Zeroed (buf : List ℕ) : Type 0 where
  pub first : ℕ
  pub is : buf ≡ first ∷ replicate 7 0
  pub small : first ≤ 255

abbrev pub Small : Summing → Type 0
Small storing = Unit
Small (iterating zero sum) = sum ≡ 0
Small (iterating (suc i) sum) = sum ≤ 255
Small (joining sum) = sum ≤ 255
Small (printed sum) = sum ≤ 255

pub record Good (s : State) : Type 0 where
  pub zeroed : Zeroed s.buf
  pub sum : Small s.main

get_elem-replicate : (n i b : ℕ) → get_elem? (replicate n 0) i ≡ some b → b ≡ 0
get_elem-replicate zero i b e = absurd cc
get_elem-replicate (suc n) zero b e = sym (Option.some_inj.0 e)
get_elem-replicate (suc n) (suc i) b e = get_elem-replicate n i b e

iterate-Small :
    (i sum first : ℕ) (o : Option ℕ)
    → first ≤ 255
    → get_elem? (first ∷ replicate 7 0) i ≡ o
    → Small (iterating i sum)
    → Small (iterate i sum o)
iterate-Small zero sum first none small e h = omega (arith, h)
iterate-Small (suc i) sum first none small e h = h
iterate-Small zero sum first (some b) small e h = grind (arith, h, Option.some_inj.0 e)
iterate-Small (suc i) sum first (some b) small e h = grind (arith, h, get_elem-replicate 7 i b e)

join-Small : (sum : ℕ) (w : Writer) (m : Summing) → join sum w ≡ some m → sum ≤ 255 → Small m
join-Small sum over m e h = subst Small (Option.some_inj.0 e) h
join-Small sum spinning m e h = absurd cc
join-Small sum (writing i) m e h = absurd cc

main_from-Good :
    (m : Summing) (s u : State) → main_from m s ≡ some u → Zeroed s.buf → Small m → Good u
unfolding main_from
main_from-Good storing s u e z h =
    subst Good (Option.some_inj.0 e) (record { zeroed = z; sum = refl })
main_from-Good (iterating i sum) s u e z h = subst Good (Option.some_inj.0 e) (record {
  zeroed = z;
  sum =
      iterate-Small i sum z.first (get_elem? s.buf i) z.small (ap (λ xs. get_elem? xs i) (sym z.is))
        h;
})
main_from-Good (joining sum) s u e z h =
    let (m, at, made) = (Option.map-eq-some_iff _ (join sum s.writer)).0 e in
    subst Good made (record { zeroed = z; sum = join-Small sum s.writer m at h })
main_from-Good (printed sum) s u e z h = absurd cc

byte_le : (i : ℕ) → bit_and i 255 ≤ 255
byte_le i = grind (arith, bit_and_ones 8 i)

write_volatile-Zeroed :
    (b : ℕ) (buf : List ℕ) → b ≤ 255 → Zeroed buf → Zeroed (write_volatile b buf)
write_volatile-Zeroed b buf h z = record { first = b; is = ap (write_volatile b) z.is; small = h }

chosen {ℓ} :
    {A : Type ℓ} (P : A → Type 0) (b : Bool) (x y u : A)
    → P x
    → P y
    → (if b then some x else some y) ≡ some u
    → P u
chosen P true x y u p q e = subst P (Option.some_inj.0 e) p
chosen P false x y u p q e = subst P (Option.some_inj.0 e) q

writer_from-Good :
    (w : Writer) (s u : State) → writer_from w s ≡ some u → Zeroed s.buf → Small s.main → Good u
unfolding writer_from
writer_from-Good spinning s u e z h =
    chosen Good s.go (record s { writer = writing 0 }) s u (record { zeroed = z; sum = h })
      (record { zeroed = z; sum = h }) e
writer_from-Good (writing i) s u e z h =
    chosen Good (ltb i 1000)
      (record s { buf = write_volatile (bit_and i 255) s.buf; writer = writing (suc i) })
      (record s { writer = over }) u
      (record { zeroed = write_volatile-Zeroed (bit_and i 255) s.buf (byte_le i) z; sum = h })
      (record { zeroed = z; sum = h }) e
writer_from-Good over s u e z h = absurd cc

pub Reach-Good : (s : State) → Reach s → Good s
Reach-Good s here = record {
  zeroed = record { first = 0; is = refl; small = omega arith };
  sum = tt;
}
Reach-Good u (next {u = s} r (main_moves e)) =
    let g = Reach-Good s r in main_from-Good s.main s u e g.zeroed g.sum
Reach-Good u (next {u = s} r (writer_moves e)) =
    let g = Reach-Good s r in writer_from-Good s.writer s u e g.zeroed g.sum
