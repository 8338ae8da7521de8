-- ===== src/Sgx/Tests.antt =====
-- Runs of the SGX programs, and their theorems at concrete inputs.
use security_audits.Base.{ℕ, refl, ◌≡◌, ◌↔◌, ◌≤◌}
use security_audits.Sgx.Layouts
use security_audits.Sgx.UserSlice
use security_audits.Sgx.UserSlice.Printed.{Reach-printed_iff}

Reach-printed_iff_example :
    ((s : UserSlice.State) × UserSlice.Reach s × (s.main ≡ UserSlice.printed 231)) ↔ (231 ≤ 255)
Reach-printed_iff_example = Reach-printed_iff 231

-- A library that checks, and one that does not.
main_c_layouts :
    (Layouts.main_c_alloc {L = ℕ} (λ size align. Layouts.aborted) ≡ Layouts.aborted)
    × (Layouts.main_c_alloc {L = ℕ} (λ size align. Layouts.returned align)
        ≡ Layouts.returned (Layouts.invalid_layout 3))
    × (Layouts.main_c_dealloc {L = ℕ} (λ size align. Layouts.returned align)
        ≡ Layouts.returned (Layouts.invalid_layout 0))
unfolding Layouts.main_c_alloc Layouts.main_c_dealloc
main_c_layouts = (refl, refl, refl)
