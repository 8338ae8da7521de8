-- ===== src/Simd/Tests.antt =====
-- Runs of the stdarch programs, and their theorems at concrete inputs.
use security_audits.Base.{◌≡◌, refl, done}
use security_audits.Simd.Lanes.{main_insert, main_extract, main_any}
use security_audits.Simd.Features.{main}

mains_pass :
    (main_insert ≡ done tt) × (main_extract ≡ done tt) × (main_any ≡ done tt) × (main ≡ done tt)
unfolding main_insert main_extract main_any main
mains_pass = (refl, refl, refl, refl)
