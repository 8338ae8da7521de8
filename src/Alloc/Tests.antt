-- ===== src/Alloc/Tests.antt =====
-- Runs of the allocator programs, and their theorems at concrete layouts.
use security_audits.Base.{◌≡◌, refl, true, done}
use security_audits.Alloc.{main, poc}

main_passes : main ≡ done tt
unfolding main
main_passes = refl

poc_holds : poc ≡ true
unfolding poc
poc_holds = refl
