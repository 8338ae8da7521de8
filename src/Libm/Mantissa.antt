-- ===== src/Libm/Mantissa.antt =====
-- rust-stdlib/pocs/046-unchecked-mantissa-exponent-growth.rs: the exponent that grows by 4 for each
-- further digit of the mantissa.
use security_audits.Base.{
  ℕ, zero, suc, ◌-◌, ◌*◌, ◌^◌, ◌≡◌, sym, subst, ap, ◌∙◌, arith, true, false, ◌==◌, Build, checked,
  unchecked, Outcome, done, ◌>>=◌, ◌>>◌, >>=-done, assert, panicked,
}
use security_audits.Base.Int.{ℤ, pos, negsuc, ◌+ℤ◌, ◌≤ℤ◌}
use security_audits.Base.Signed.{
  fits, value_of, pattern_of, plus_int, held-fits, value_of-pattern_of,
}

abbrev pub half : ℕ
half = 2 ^ 31

abbrev pub wrapping_add_4 : ℤ → ℤ
wrapping_add_4 exp' = value_of half (pattern_of (2 * half) (exp' +ℤ pos 4))

-- `i` counts up to the number of digits: the recursion counts what is left.
unfoldable pub buggy_advance_exp : ℤ → ℕ → ℤ
buggy_advance_exp exp' zero = exp'
buggy_advance_exp exp' (suc left) = buggy_advance_exp (wrapping_add_4 exp') left

unfoldable pub buggy_advance_exp_checked_arith : Build → ℤ → ℕ → Outcome ℤ
buggy_advance_exp_checked_arith build exp' zero = done exp'
buggy_advance_exp_checked_arith build exp' (suc left) = do
  next ← plus_int build half exp' (pos 4)
  buggy_advance_exp_checked_arith build next left

-- `cfg!(debug_assertions)` is taken to be the overflow checks of the build.
unfoldable pub main : Build → Outcome (Unit {0})
unfolding buggy_advance_exp buggy_advance_exp_checked_arith
main build = do
  let start : ℤ = pos 2147483644
  let extra : ℕ = 1
  let exp' = buggy_advance_exp start extra
  assert (elim exp' [ pos n ↦ false | negsuc n ↦ n == half - 1 ])
  let caught = panicked (buggy_advance_exp_checked_arith build start extra)
  elim build [ checked ↦ assert caught | unchecked ↦ done tt ]

plus_zero : (z : ℤ) → z +ℤ pos 0 ≡ z
plus_zero (pos n) = ground arith
plus_zero (negsuc n) = ground arith

plus_in_range :
    (z : ℤ) (k : ℕ)
    → fits half z ≡ true
    → z +ℤ pos (4 * suc k) ≤ℤ pos (half - 1)
    → (fits half (z +ℤ pos 4) ≡ true) × (z +ℤ pos 4 +ℤ pos (4 * k) ≡ z +ℤ pos (4 * suc k))
plus_in_range (pos n) k h l = (ground arith, ground arith)
plus_in_range (negsuc n) k h l = (ground arith, ground arith)

-- From a start in range, if the exponent after all digits is at most the largest i32, both routines
-- return it, in both builds: nothing wraps on the way.
pub advance_exp-in_range :
    (build : Build) (left : ℕ) (start : ℤ)
    → fits half start ≡ true
    → start +ℤ pos (4 * left) ≤ℤ pos (half - 1)
    → (buggy_advance_exp start left ≡ start +ℤ pos (4 * left))
      × (buggy_advance_exp_checked_arith build start left ≡ done (start +ℤ pos (4 * left)))
unfolding buggy_advance_exp buggy_advance_exp_checked_arith
advance_exp-in_range build zero start h l = (sym (plus_zero start), ap done (sym (plus_zero start)))
advance_exp-in_range build (suc left) start h l =
    let (fits', sum) = plus_in_range start left h l in
    let (plain, checked') =
      advance_exp-in_range build left (start +ℤ pos 4) fits'
        (subst (λ (t : ℤ). t ≤ℤ pos (half - 1)) (sym sum) l) in
    (
      ap (λ (t : ℤ). buggy_advance_exp t left) (value_of-pattern_of half (start +ℤ pos 4) fits')
          ∙ plain
          ∙ sum,
      >>=-done _ (held-fits build half (start +ℤ pos 4) fits') (checked' ∙ ap done sum),
    )
