-- ===== src/Windows/UnicodeString.antt =====
-- rust-stdlib/pocs/062-unicode-string-length-truncation.rs: the lengths of a UNICODE_STRING.
use security_audits.Base.{
  ℕ, ◌*◌, ◌%◌, ◌^◌, ◌<◌, ◌≡◌, ◌↔◌, refl, ◌&&◌, ap, arith, ◌==◌, Build, Outcome, done, ◌>>=◌, ◌>>◌,
  assert, >>=-done,
}
use security_audits.Base.Words.{u16_mod, usize_mod, times, times-fits}

unfoldable pub buggy_lengths : Build → ℕ → Outcome (ℕ × ℕ)
buggy_lengths build slice_len = do
  bytes ← times build usize_mod slice_len 2
  let max_len = bytes
  done (bytes % u16_mod, max_len % u16_mod)

unfoldable pub main : Build → Outcome (Unit {0})
unfolding buggy_lengths
main build = do
  (l1, m1) ← buggy_lengths build 32768
  assert (l1 == 0 && m1 == 0)
  (l2, m2) ← buggy_lengths build 32771
  assert (l2 == 6 && m2 == 6)

-- For every slice that fits the address space both fields are the size in bytes modulo 65536: they are
-- the size exactly if the slice has fewer than 32768 units, and each 32768 units more are lost.
pub lengths-truncated :
    (build : Build) (slice_len : ℕ)
    → slice_len < 2 ^ 63
    → (n : ℕ) × (buggy_lengths build slice_len ≡ done (n, n))
      × ((n ≡ slice_len * 2) ↔ (slice_len < 32768))
      × (buggy_lengths build (slice_len % 32768) ≡ done (n, n))
unfolding buggy_lengths
lengths-truncated build slice_len h = (
  slice_len * 2 % u16_mod,
  >>=-done _ (times-fits build usize_mod slice_len 2 (omega arith)) refl,
  (λ e. omega arith, λ k. omega arith),
  >>=-done _ (times-fits build usize_mod (slice_len % 32768) 2 (omega arith))
      (ap (λ (t : ℕ). done (t, t)) (omega arith)),
)
