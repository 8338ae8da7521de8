-- ===== src/Sgx/Layouts.antt =====
-- rust-stdlib/pocs/069-unchecked-c-allocation-layout.rs and 070-unchecked-c-deallocation-layout.rs: a layout
-- made without a check. What `Layout::from_size_align_unchecked` does with a size and an alignment is an
-- argument: with the library's debug assertions on, its check of the precondition ends the process without
-- unwinding; without them a bad alignment has no defined result, and any result is allowed for here.
use security_audits.Base.{ℕ, ◌≡◌, refl}

-- How a call ends.
pub data Ending {ℓ} (A : Type ℓ) : Type ℓ where
  returned : A → Ending A
  unwound : Ending A
  aborted : Ending A

-- What the mains print.
pub data Triggered {ℓ} (L : Type ℓ) : Type ℓ where
  caught : Triggered L
  invalid_layout : L → Triggered L

module _ {ℓ} {L : Type ℓ} (from_size_align_unchecked : ℕ → ℕ → Ending L) where
  abbrev pub buggy_c_alloc : ℕ → ℕ → Ending L
  buggy_c_alloc size align = from_size_align_unchecked size align

  abbrev pub buggy_c_dealloc_layout : ℕ → ℕ → Ending L
  buggy_c_dealloc_layout size align = from_size_align_unchecked size align

  -- `catch_unwind` on the first call; the second stands outside it.
  abbrev pub report : Ending L → Ending L → Ending (Triggered L)
  report unwound again = returned caught
  report aborted again = aborted
  report (returned l) (returned bad) = returned (invalid_layout bad)
  report (returned l) unwound = unwound
  report (returned l) aborted = aborted

  unfoldable pub main_c_alloc : Ending (Triggered L)
  main_c_alloc = report (buggy_c_alloc 8 3) (buggy_c_alloc 8 3)

  unfoldable pub main_c_dealloc : Ending (Triggered L)
  main_c_dealloc = report (buggy_c_dealloc_layout 16 0) (buggy_c_dealloc_layout 16 0)

  report_same : (e : Ending L) → report e e ≡ returned caught → e ≡ unwound
  report_same unwound h = refl
  report_same aborted h = absurd cc
  report_same (returned l) h = absurd cc

  -- Either program prints that the check aborted only if the library unwinds instead: if it aborts, the
  -- process has ended.
  pub main_c_alloc-caught :
      ((main_c_alloc ≡ returned caught) → (from_size_align_unchecked 8 3 ≡ unwound))
      × ((main_c_dealloc ≡ returned caught) → (from_size_align_unchecked 16 0 ≡ unwound))
  unfolding main_c_alloc main_c_dealloc
  main_c_alloc-caught = (
    λ h. report_same (from_size_align_unchecked 8 3) h,
    λ h. report_same (from_size_align_unchecked 16 0) h,
  )
