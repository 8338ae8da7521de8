-- ===== src/Libm/Exponent.antt =====
-- rust-stdlib/pocs/045-unchecked-exponent-digit-accumulation.rs: the digits of an exponent.
use security_audits.Base.{
  ℕ, ◌+◌, ◌-◌, ◌*◌, ◌≤◌, ◌<◌, ◌≡◌, refl, ap, ◌∙◌, arith, Bool, true, ◌&&◌, ltb, leb, List, [], ◌∷◌,
  Build, checked, unchecked, Outcome, done, ◌>>=◌, ◌>>◌, >>=-done, assert, panicked,
}
use native.Mathlib.Nat.{mod-eq_of_lt}
use security_audits.Base.Words.{
  u8_mod, u32_mod, minus, plus, saturating_mul, wrapping_add, minus-fits, plus-fits,
}

-- `b - b'0'`.
abbrev pub digit_of : Build → ℕ → Outcome ℕ
digit_of build b = minus build u8_mod b b'0'

-- The loops, from a value of `pexp` on.
unfoldable pub accumulate_from : Build → ℕ → List ℕ → Outcome ℕ
accumulate_from build pexp [] = done pexp
accumulate_from build pexp (b ∷ bs) = do
  digit ← digit_of build b
  accumulate_from build (wrapping_add u32_mod (saturating_mul u32_mod pexp 10) digit) bs

unfoldable pub accumulate_checked_from : Build → ℕ → List ℕ → Outcome ℕ
accumulate_checked_from build pexp [] = done pexp
accumulate_checked_from build pexp (b ∷ bs) = do
  digit ← digit_of build b
  sum ← plus build u32_mod (saturating_mul u32_mod pexp 10) digit
  accumulate_checked_from build sum bs

unfoldable pub buggy_accumulate : Build → List ℕ → Outcome ℕ
unfolding accumulate_from
buggy_accumulate build exponent_digits = accumulate_from build 0 exponent_digits

unfoldable pub buggy_accumulate_checked_arith : Build → List ℕ → Outcome ℕ
unfolding accumulate_checked_from
buggy_accumulate_checked_arith build exponent_digits =
    accumulate_checked_from build 0 exponent_digits

-- `cfg!(debug_assertions)` is taken to be the overflow checks of the build.
unfoldable pub main : Build → Outcome (Unit {0})
unfolding buggy_accumulate buggy_accumulate_checked_arith
main build = do
  let digits : List ℕ = 52 ∷ 50 ∷ 57 ∷ 52 ∷ 57 ∷ 54 ∷ 55 ∷ 50 ∷ 57 ∷ 54 ∷ []
  result ← buggy_accumulate build digits
  assert (ltb result 4294967290)
  let caught = panicked (buggy_accumulate_checked_arith build digits)
  elim build [ checked ↦ assert caught | unchecked ↦ done tt ]

unfoldable pub all_digits : List ℕ → Bool
all_digits [] = true
all_digits (b ∷ bs) = leb b'0' b && leb b b'9' && all_digits bs

-- The number that the digits stand for, after those that stand for `acc`.
unfoldable pub decimal_from : ℕ → List ℕ → ℕ
decimal_from acc [] = acc
decimal_from acc (b ∷ bs) = decimal_from (acc * 10 + (b - b'0')) bs

le-decimal_from : (acc : ℕ) (bs : List ℕ) → acc ≤ decimal_from acc bs
unfolding decimal_from
le-decimal_from acc [] = omega arith
le-decimal_from acc (b ∷ bs) = omega (arith, le-decimal_from (acc * 10 + (b - b'0')) bs)

digit_of_digit : (build : Build) (b : ℕ) → b'0' ≤ b → b ≤ b'9' → digit_of build b ≡ done (b - b'0')
digit_of_digit build b low high = minus-fits build u8_mod b b'0' low (omega arith)

-- Digits that stand for a number below 2 ^ 32, after what is accumulated already, are accumulated to
-- that number, by both routines in both builds.
pub accumulate-decimal :
    (build : Build) (pexp : ℕ) (bs : List ℕ)
    → all_digits bs ≡ true
    → decimal_from pexp bs < u32_mod
    → (accumulate_from build pexp bs ≡ done (decimal_from pexp bs))
      × (accumulate_checked_from build pexp bs ≡ done (decimal_from pexp bs))
unfolding accumulate_from accumulate_checked_from all_digits decimal_from
accumulate-decimal build pexp [] h k = (refl, refl)
accumulate-decimal build pexp (b ∷ bs) h k =
    let next : ℕ = pexp * 10 + (b - b'0') in
    let bound = le-decimal_from next bs in
    let low : b'0' ≤ b = ground arith in
    let high : b ≤ b'9' = ground arith in
    let rest : all_digits bs ≡ true = ground arith in
    let (wrapped, checked') = accumulate-decimal build next bs rest k in
    let fits_mul : saturating_mul u32_mod pexp 10 ≡ pexp * 10 = ground arith in
    let fits_add : wrapping_add u32_mod (saturating_mul u32_mod pexp 10) (b - b'0') ≡ next =
      rw fits_mul (mod-eq_of_lt (omega arith)) in
    let digit = digit_of_digit build b low high in
    (
      >>=-done _ digit (ap (λ (t : ℕ). accumulate_from build t bs) fits_add ∙ wrapped),
      >>=-done _ digit (
          >>=-done (λ (t : ℕ). accumulate_checked_from build t bs)
            (ap (λ (t : ℕ). plus build u32_mod t (b - b'0')) fits_mul
              ∙ plus-fits build u32_mod (pexp * 10) (b - b'0') (omega arith))
            checked'),
    )
