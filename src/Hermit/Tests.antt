-- ===== src/Hermit/Tests.antt =====
-- Runs of the Hermit programs, and their theorems at concrete inputs.
use security_audits.Base.{
  ◌^◌, ◌≡◌, refl, arith, true, false, ltb, suc, ok, err, done, panic, checked, unchecked,
  if◌then◌else◌,
}
use security_audits.Base.Int.{pos, negsuc}
use security_audits.Hermit.Converted
use security_audits.Hermit.Negated

main_i64 : (Converted.main checked ≡ true) × (Converted.main unchecked ≡ true)
unfolding Converted.main
main_i64 = (refl, refl)

main_i32 : (Negated.main checked ≡ true) × (Negated.main unchecked ≡ false)
unfolding Negated.main
main_i32 = (refl, refl)

cvt-i64_example :
    (Converted.cvt unchecked (2 ^ 63) (pos 7) ≡ done (ok (pos 7)))
    × (Converted.cvt unchecked (2 ^ 63) (negsuc 7)
        ≡ (if ltb (suc 7) (2 ^ 31) then done (err (pos (suc 7))) else panic))
cvt-i64_example = Converted.cvt-i64 unchecked 7 (omega arith)
