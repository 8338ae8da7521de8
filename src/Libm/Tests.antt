-- ===== src/Libm/Tests.antt =====
-- Runs of the libm programs, and their theorems at concrete inputs.
use security_audits.Base.{ℕ, ◌*◌, ◌≡◌, refl, arith, true, List, [], ◌∷◌, done, checked, unchecked}
use security_audits.Base.Int.{pos, negsuc, ◌+ℤ◌}
use security_audits.Libm.Exponent.{
  accumulate_from, accumulate_checked_from, decimal_from, all_digits, accumulate-decimal,
}
use security_audits.Libm.Mantissa.{
  buggy_advance_exp, buggy_advance_exp_checked_arith, advance_exp-in_range,
}
use security_audits.Libm.Exponent
use security_audits.Libm.Mantissa

main_exponent : (Exponent.main checked ≡ done tt) × (Exponent.main unchecked ≡ done tt)
unfolding Exponent.main
main_exponent = (refl, refl)

main_mantissa : (Mantissa.main checked ≡ done tt) × (Mantissa.main unchecked ≡ done tt)
unfolding Mantissa.main
main_mantissa = (refl, refl)

abbrev digits : List ℕ
digits = 49 ∷ 50 ∷ 51 ∷ []

digits_all : all_digits digits ≡ true
unfolding all_digits
digits_all = refl

digits_value : decimal_from 0 digits ≡ 123
unfolding decimal_from
digits_value = refl

advance_exp-in_range_example :
    (buggy_advance_exp (negsuc 2) 5 ≡ negsuc 2 +ℤ pos (4 * 5))
    × (buggy_advance_exp_checked_arith checked (negsuc 2) 5 ≡ done (negsuc 2 +ℤ pos (4 * 5)))
advance_exp-in_range_example = advance_exp-in_range checked 5 (negsuc 2) refl (omega arith)

accumulate-decimal_example :
    (accumulate_from checked 0 digits ≡ done (decimal_from 0 digits))
    × (accumulate_checked_from checked 0 digits ≡ done (decimal_from 0 digits))
accumulate-decimal_example =
    accumulate-decimal checked 0 digits digits_all (omega (arith, digits_value))
