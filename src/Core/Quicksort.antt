-- ===== src/Core/Quicksort.antt =====
-- rust-stdlib/pocs/100-incorrect-scratch-length-contract.rs: how much scratch space the sort needs.
use security_audits.Base.{
  ℕ, ◌-◌, ◌/◌, ◌≤◌, ◌<◌, max, ◌≡◌, ◌↔◌, Bool, true, false, ◌||◌, arith, ltb, leb, ◌==◌, Outcome,
  ◌>>◌, assert,
}

unfoldable pub documented_min_scratch : ℕ → ℕ → ℕ
documented_min_scratch v_len small_sort_scratch = max (v_len - v_len / 2) small_sort_scratch

unfoldable pub actual_required_scratch : ℕ → ℕ
actual_required_scratch v_len = v_len

unfoldable pub stable_partition_aborts : ℕ → ℕ → ℕ → Bool
stable_partition_aborts v_len scratch_len pivot_pos = ltb scratch_len v_len || leb v_len pivot_pos

abbrev pub small_sort_general_scratch_len : ℕ
small_sort_general_scratch_len = 48

unfoldable pub main : Outcome (Unit {0})
unfolding documented_min_scratch actual_required_scratch stable_partition_aborts
main = do
  let v_len : ℕ = 49
  let documented = documented_min_scratch v_len small_sort_general_scratch_len
  let required = actual_required_scratch v_len
  let aborts = stable_partition_aborts v_len documented 10
  assert (documented == 48)
  assert (required == 49)
  assert aborts

-- With the documented scratch and a pivot in range, the partition aborts exactly on a slice of two or
-- more elements that is longer than the scratch of the small sort. With the required scratch it never
-- does.
pub partition-scratch :
    (v_len small pivot : ℕ)
    → pivot < v_len
    → ((stable_partition_aborts v_len (documented_min_scratch v_len small) pivot ≡ true)
        ↔ ((2 ≤ v_len) × (small < v_len)))
      × (stable_partition_aborts v_len (actual_required_scratch v_len) pivot ≡ false)
unfolding documented_min_scratch actual_required_scratch stable_partition_aborts
partition-scratch v_len small pivot h = (ground arith, ground arith)
