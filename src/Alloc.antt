-- ===== src/Alloc.antt =====
-- rust-stdlib/pocs/061-realloc-uses-mismatched-allocation-predicate.rs and
-- 102-realloc-used-on-memalign-allocation.rs: which allocator a layout's memory comes from, and which
-- one `realloc` gives it to. `min_align` is 16 in the first program and 8 in the second.
mod Tests
use security_audits.Base.{
  ℕ, ◌≤◌, ◌<◌, ◌≡◌, ◌↔◌, refl, Bool, true, false, not, ◌&&◌, arith, leb, Outcome, ◌>>◌, done,
  assert,
}

abbrev pub min_align : ℕ
min_align = 16

unfoldable pub alloc_uses_aligned : ℕ → ℕ → Bool
alloc_uses_aligned size align = not (leb align min_align && leb align size)

unfoldable pub realloc_buggy_uses_libc_realloc : ℕ → ℕ → ℕ → Bool
realloc_buggy_uses_libc_realloc size align new_size = leb align min_align && leb align new_size

unfoldable pub realloc_fixed_uses_libc_realloc : ℕ → ℕ → ℕ → Bool
realloc_fixed_uses_libc_realloc size align new_size = leb align min_align && leb align size

-- `main` of 061.
unfoldable pub main : Outcome (Unit {0})
unfolding alloc_uses_aligned realloc_buggy_uses_libc_realloc realloc_fixed_uses_libc_realloc
main = do
  assert (alloc_uses_aligned 1 16)
  assert (realloc_buggy_uses_libc_realloc 1 16 16)
  assert (not (realloc_fixed_uses_libc_realloc 1 16 16))

-- `MIN_ALIGN` of 102.
abbrev pub solid_min_align : ℕ
solid_min_align = 8

unfoldable pub alloc_uses_memalign : ℕ → ℕ → Bool
alloc_uses_memalign align size = not (leb align solid_min_align && leb align size)

unfoldable pub realloc_uses_realloc_buggy : ℕ → ℕ → Bool
realloc_uses_realloc_buggy align new_size = leb align solid_min_align && leb align new_size

unfoldable pub realloc_uses_realloc_fixed : ℕ → ℕ → ℕ → Bool
realloc_uses_realloc_fixed align size new_size =
    leb align solid_min_align && leb align size && leb align new_size

unfoldable pub poc : Bool
unfolding alloc_uses_memalign realloc_uses_realloc_buggy realloc_uses_realloc_fixed
poc =
    alloc_uses_memalign 8 1
    && realloc_uses_realloc_buggy 8 16
    && not (realloc_uses_realloc_fixed 8 1 16)

-- The fixed predicate chooses `libc::realloc` exactly for what `malloc` gave. The buggy one chooses it
-- for memory of `aligned_malloc` exactly when the layout is smaller than its alignment, and the
-- alignment is at most 16 and at most the new size.
pub realloc_families :
    (size align new_size : ℕ)
    → (realloc_fixed_uses_libc_realloc size align new_size ≡ not (alloc_uses_aligned size align))
      × ((alloc_uses_aligned size align && realloc_buggy_uses_libc_realloc size align new_size
            ≡ true)
          ↔ ((size < align) × (align ≤ 16) × (align ≤ new_size)))
unfolding alloc_uses_aligned realloc_buggy_uses_libc_realloc realloc_fixed_uses_libc_realloc
realloc_families size align new_size = (ground arith, ground arith)

-- On SOLID the fixed predicate never gives memory of `memalign` to `realloc`, and the buggy one does
-- exactly when the layout is smaller than its alignment, which is at most 8 and at most the new size.
-- The two differ on no other memory.
pub memalign_families :
    (align size new_size : ℕ)
    → (alloc_uses_memalign align size && realloc_uses_realloc_fixed align size new_size ≡ false)
      × ((alloc_uses_memalign align size && realloc_uses_realloc_buggy align new_size ≡ true)
          ↔ ((size < align) × (align ≤ 8) × (align ≤ new_size)))
      × (alloc_uses_memalign align size ≡ false
          → realloc_uses_realloc_buggy align new_size
            ≡ realloc_uses_realloc_fixed align size new_size)
unfolding alloc_uses_memalign realloc_uses_realloc_buggy realloc_uses_realloc_fixed
memalign_families align size new_size = (ground arith, ground arith, λ e. ground arith)
