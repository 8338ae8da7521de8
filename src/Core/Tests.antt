-- ===== src/Core/Tests.antt =====
-- Runs of the programs of library/core, and their theorems at concrete inputs.
use security_audits.Core.Clamp.{clamp_get, clamp_get-cases}
use security_audits.Core.Duration.{main_floor, main_ceil}
use security_audits.Core.CachedPower.{cached_power_buggy, table_len, cached_power-in_table}
use security_audits.Core.Quicksort.{
  stable_partition_aborts, documented_min_scratch, actual_required_scratch, partition-scratch,
}
use security_audits.Core.Clamp
use security_audits.Core.CachedPower
use security_audits.Core.Quicksort
use security_audits.Base.{◌≡◌, refl, arith, done, panic, checked, unchecked, Build}
use security_audits.Core.CarryingMul
use security_audits.Core.CarryingMul.{
  carrying_mul_add_signed_widening, carrying_mul_add_unsigned_widening,
}
use security_audits.Core.CarryingMul.Widening.{unsigned-signed_widening}

-- The last assertion of `main` says that the two results differ; they do not.
carrying_mul_panics : (build : Build) → CarryingMul.main build ≡ panic
unfolding CarryingMul.main
carrying_mul_panics checked = refl
carrying_mul_panics unchecked = refl

-- -1 times -1.
unsigned-signed_widening_example :
    carrying_mul_add_signed_widening checked 18446744073709551615 18446744073709551615 0 0
    ≡ done (1, 0)
unfolding carrying_mul_add_unsigned_widening
unsigned-signed_widening_example =
    unsigned-signed_widening 18446744073709551615 18446744073709551615 0 0 (omega arith)
      (omega arith) (omega arith) (omega arith) checked

mains_core :
    (Clamp.main checked ≡ panic)
    × (main_floor ≡ done tt)
    × (main_ceil ≡ done tt)
    × (CachedPower.main ≡ done tt)
    × (Quicksort.main ≡ done tt)
unfolding Clamp.main main_floor main_ceil CachedPower.main Quicksort.main
mains_core = (refl, refl, refl, refl, refl)
