-- ===== src/Uefi/FileInfo.antt =====
-- rust-stdlib/pocs/006-file-name-length-underflow.rs: the length of the name in a `file::Info`.
use security_audits.Base.{
  ℕ, ◌+◌, ◌-◌, ◌/◌, ◌^◌, ◌≤◌, ◌<◌, ◌≡◌, ◌↔◌, arith, ltb, ◌==◌, Outcome, ◌>>◌, assert,
}
use security_audits.Base.Words.{usize_mod, wrapping_sub}

abbrev pub header_size : ℕ
header_size = 80

unfoldable pub buggy_len : ℕ → ℕ
buggy_len size = wrapping_sub usize_mod size header_size / 2

unfoldable pub patched_len : ℕ → ℕ
patched_len size = (size - header_size) / 2

unfoldable pub main : Outcome (Unit {0})
unfolding buggy_len patched_len
main = do
  let bad : ℕ = buggy_len 0
  let good : ℕ = patched_len 0
  assert (ltb 1000000000 bad)
  assert (good == 0)

-- For every 64-bit size the two lengths agree exactly if the size covers the header. The patched name
-- lies within the size; without the header, the buggy length is within 40 of 2 ^ 63.
pub len-compared :
    (size : ℕ)
    → size < 2 ^ 64
    → ((buggy_len size ≡ patched_len size) ↔ (header_size ≤ size))
      × (patched_len size + patched_len size ≤ size - header_size)
      × (size < header_size → 2 ^ 63 ≤ buggy_len size + 40)
unfolding buggy_len patched_len
len-compared size h = ((λ e. omega arith, λ k. omega arith), omega arith, λ k. omega arith)
