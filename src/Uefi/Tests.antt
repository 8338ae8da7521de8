-- ===== src/Uefi/Tests.antt =====
-- Runs of the UEFI programs, and their theorems at concrete inputs.
use security_audits.Base.{
  ℕ, zero, suc, List, Option, Outcome, ◌+◌, ◌-◌, ◌*◌, ◌≤◌, ◌≡◌, refl, arith, leb, ◌==◌, ◌||◌, [],
  ◌∷◌, done, checked, some, replicate, if◌then◌else◌,
}
use security_audits.Uefi.FileInfo.{buggy_len, patched_len, len-compared}
use security_audits.Uefi.Completion.{Status, success, error, is_error, is_error_iff}
use security_audits.Uefi.DevicePath.{
  bad, buggy_iter, patched_iter, iter-stalled, patched_iter-bound, is_end, buggy_cursor,
  patched_cursor, iter_loop,
}
use security_audits.Uefi.Leaks.{main_volume, main_exists, main_create}
use security_audits.Uefi.FileInfo
use security_audits.Uefi.Completion
use security_audits.Uefi.DevicePath
use security_audits.Uefi.Handles
use security_audits.Uefi.Handles.Firmware.{LocateError, documented}
use security_audits.Uefi.Handles.Stale.{Relocated, located-cases}

main_file_info : FileInfo.main ≡ done tt
unfolding FileInfo.main
main_file_info = refl

main_completion : Completion.main ≡ done tt
unfolding Completion.main
main_completion = refl

main_handles :
    Handles.main
    ≡ done (some (1 ∷ Handles.sentinel ∷ Handles.sentinel ∷ Handles.sentinel ∷ []), some (1 ∷ []))
unfolding Handles.main
main_handles = refl

main_leaks :
    (main_volume checked ≡ done 0) × (main_exists checked ≡ done 0) × (main_create checked ≡ done 0)
unfolding main_volume main_exists main_create
main_leaks = (refl, refl, refl)

main_device_path : DevicePath.main ≡ done tt
unfolding DevicePath.main
main_device_path =
    let (stalls, stops) = iter-stalled bad 0 1000000 refl refl in rw (stalls, stops) refl

-- Two nodes of 4 bytes, and ends after them.
abbrev two_nodes : ℕ → ℕ
two_nodes p = if leb 8 p then 0x7f else if p == 2 || p == 6 then 4 else 0

patched_iter-bound_example : patched_iter two_nodes 0 10 * 4 ≤ (8 - 0) + 3
patched_iter-bound_example = patched_iter-bound two_nodes 8 0 10 (λ p h. ground arith)

-- Four handles that shrink to one, as the firmware of 004 has them.
-- One handle is left of four.
abbrev answering : ℕ → List Handles.Handle → ℕ → Outcome (Handles.Located ℕ LocateError)
answering zero buf n = done (documented 1 (replicate 4 1) buf n)
answering (suc c) buf n = done (documented (suc (suc c)) (1 ∷ []) buf n)

located-cases_example :
    (b p : Option (List Handles.Handle)) × ((Handles.buggy answering 0 ≡ done (b, 2))
      × (Handles.patched answering 0 ≡ done (p, 2))
      × Relocated (replicate 4 1) (1 ∷ []) b p)
located-cases_example = located-cases answering 0 1 2 (replicate 4 1) (1 ∷ []) refl refl

-- With none left, the patched routine returns what its buffer was filled with.
abbrev vanishing : ℕ → List Handles.Handle → ℕ → Outcome (Handles.Located ℕ LocateError)
vanishing zero buf n = done (documented 1 (7 ∷ []) buf n)
vanishing (suc c) buf n = done (documented (suc (suc c)) [] buf n)

patched_filling : Handles.patched vanishing 0 ≡ done (some (Handles.sentinel ∷ []), 2)
unfolding Handles.patched
patched_filling = refl
