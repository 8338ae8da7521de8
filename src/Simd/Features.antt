-- ===== src/Simd/Features.antt =====
-- rust-stdlib/pocs/063-simd-extensions-ignore-simd-invariant.rs: the processor features of the aarch64
-- identification registers.
use security_audits.Base.{
  ℕ, ◌+◌, ◌-◌, ◌*◌, ◌/◌, ◌%◌, ◌^◌, ◌≤◌, ◌<◌, ◌≡◌, ◌↔◌, ◌⊎◌, Bool, true, not, ◌&&◌, ◌||◌, arith, ltb,
  leb, bit_and, bit_or, Outcome, ◌>>◌, assert,
}
use security_audits.Base.Bits.{bit_and_ones}

unfoldable pub bits_shift : ℕ → ℕ → ℕ → ℕ
bits_shift reg hi lo =
    let width = hi - lo + 1 in let mask = 2 ^ width - 1 in bit_and (reg / 2 ^ lo) mask

pub record Features : Type 0 where
  pub asimd : Bool
  pub aes : Bool
  pub sha2 : Bool
  pub rdm : Bool
  pub dotprod : Bool
  pub sve : Bool

unfoldable pub parse_buggy : ℕ → ℕ → Features
parse_buggy aa64pfr0 aa64isar0 =
    let fp = ltb (bits_shift aa64pfr0 19 16) 0xf in
    let fphp = leb 1 (bits_shift aa64pfr0 19 16) in
    let asimd' = ltb (bits_shift aa64pfr0 23 20) 0xf in
    let asimdhp = leb 1 (bits_shift aa64pfr0 23 20) in
    let sha1 = leb 1 (bits_shift aa64isar0 11 8) in
    let sha2' = leb 1 (bits_shift aa64isar0 15 12) in
    record {
      asimd = fp && asimd' && (not fphp || asimdhp);
      aes = asimd' && leb 2 (bits_shift aa64isar0 7 4);
      sha2 = asimd' && sha1 && sha2';
      rdm = asimd' && leb 1 (bits_shift aa64isar0 31 28);
      dotprod = asimd' && leb 1 (bits_shift aa64isar0 47 44);
      sve = asimd' && leb 1 (bits_shift aa64pfr0 35 32);
    }

unfoldable pub main : Outcome (Unit {0})
unfolding bits_shift parse_buggy
main = do
  let aa64pfr0 : ℕ = bit_or (bit_or (0xf * 2 ^ 16) (0x1 * 2 ^ 20)) (0x1 * 2 ^ 32)
  let aa64isar0 : ℕ =
      bit_or (bit_or (bit_or (bit_or (0x2 * 2 ^ 4) (0x1 * 2 ^ 8)) (0x1 * 2 ^ 12)) (0x1 * 2 ^ 28))
        (0x1 * 2 ^ 44)
  let f = parse_buggy aa64pfr0 aa64isar0
  assert (not f.asimd)
  assert (f.aes && f.sha2 && f.rdm && f.dotprod && f.sve)

-- `bits_shift` reads the bits from `lo` to `hi`, for every register.
pub bits_shift-field : (reg hi lo : ℕ) → bits_shift reg hi lo ≡ reg / 2 ^ lo % 2 ^ (hi - lo + 1)
unfolding bits_shift
bits_shift-field reg hi lo = bit_and_ones (hi - lo + 1) (reg / 2 ^ lo)

-- The parser reports AES without ASIMD exactly if the AES field is 2 or more, the ASIMD field is not
-- 15, and the FP field is 15, or is not 0 while the ASIMD field is.
pub parse-aes_alone :
    (pfr isar : ℕ)
    → (((parse_buggy pfr isar).aes && not (parse_buggy pfr isar).asimd) ≡ true) ↔ (
        (2 ≤ isar / 2 ^ 4 % 16)
        × (pfr / 2 ^ 20 % 16 < 15)
        × ((pfr / 2 ^ 16 % 16 ≡ 15) ⊎ ((1 ≤ pfr / 2 ^ 16 % 16) × (pfr / 2 ^ 20 % 16 ≡ 0))))
unfolding parse_buggy
parse-aes_alone pfr isar =
    let fp = bits_shift-field pfr 19 16 in
    let asimd = bits_shift-field pfr 23 20 in
    let aes = bits_shift-field isar 7 4 in rw (fp, asimd, aes) (ground arith)
