-- ===== src/Core/CachedPower.antt =====
-- rust-stdlib/pocs/099-unchecked-cached-power-index.rs: the index into the table of cached powers of ten.
-- The arithmetic on 32 bits does not overflow: `gamma` has 16.
use security_audits.Base.{
  ℕ, ◌+◌, ◌^◌, ◌<◌, ◌≡◌, ◌↔◌, arith, List, get_elem?, replicate, true, Outcome, assert, panicked,
  unwrap,
}
use security_audits.Base.Int.{ℤ, pos, negsuc, ◌-ℤ◌, ◌*ℤ◌, ◌+ℤ◌, ◌≤ℤ◌, quot_ℤ}
use security_audits.Base.Words.{usize_mod}
use security_audits.Base.Signed.{fits, pattern_of}

abbrev pub cached_pow10_first_e : ℤ
cached_pow10_first_e = negsuc 1086

abbrev pub cached_pow10_last_e : ℤ
cached_pow10_last_e = pos 1018

abbrev pub table_len : ℕ
table_len = 81

unfoldable pub cached_power_buggy : ℤ → ℤ → ℕ
cached_power_buggy alpha gamma =
    let offset : ℤ = negsuc 63 +ℤ pos 1 -ℤ cached_pow10_last_e in
    let range : ℤ = pos table_len -ℤ pos 1 in
    let domain : ℕ = 1018 + 1087 in
    let idx = quot_ℤ ((gamma -ℤ offset) *ℤ range) domain in pattern_of usize_mod idx

unfoldable pub main : Outcome (Unit {0})
unfolding cached_power_buggy
main = do
  let table : List ℕ = replicate table_len 0
  let idx = cached_power_buggy (pos 0) (negsuc 1113)
  assert (panicked (unwrap (get_elem? table idx)))

-- For every 16-bit exponent the index is in the table exactly if the exponent is from -1107 to 1050.
pub cached_power-in_table :
    (alpha gamma : ℤ)
    → fits (2 ^ 15) gamma ≡ true
    → (cached_power_buggy alpha gamma < table_len) ↔ ((negsuc 1106 ≤ℤ gamma) × (gamma ≤ℤ pos 1050))
unfolding cached_power_buggy
cached_power-in_table alpha (pos n) h = ground arith
cached_power-in_table alpha (negsuc n) h = ground arith
