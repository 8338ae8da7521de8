-- ===== src/Windows/Reparse.antt =====
-- rust-stdlib/pocs/008-unchecked-reparse-name-bounds.rs: where the substitute name of a reparse point
-- lies. Offsets and lengths are in bytes.
use security_audits.Base.{
  ℕ, ◌+◌, ◌-◌, ◌*◌, ◌/◌, ◌%◌, ◌≤◌, ◌<◌, ◌≡◌, ◌↔◌, Bool, true, false, not, ◌||◌, arith, ltb, ◌==◌,
  none, some, if◌then◌else◌, Result, ok, err, Outcome, ◌>>◌, assert,
}
use security_audits.Base.Words.{usize_mod, u16_mod, checked_add}

abbrev pub maximum_reparse_data_buffer_size : ℕ
maximum_reparse_data_buffer_size = 16384

abbrev pub header_size : ℕ
header_size = 8

abbrev pub path_buffer_offset_in_symlink : ℕ
path_buffer_offset_in_symlink = 12

unfoldable pub buggy : ℕ → ℕ → ℕ × ℕ × ℕ
buggy subst_off_bytes subst_len_bytes =
    let subst_off = subst_off_bytes / 2 in
    let subst_len = subst_len_bytes / 2 in (subst_off, subst_len, subst_off * 2 + subst_len * 2)

-- The messages of the validator.
pub data Invalid : Type 0 where
  bytes_returned_bad data_length path_buffer overflow offset_length : Invalid

unfoldable pub patched : ℕ → ℕ → ℕ → ℕ → Result (Unit {0}) Invalid
patched bytes_returned reparse_data_len subst_off subst_len =
    if ltb bytes_returned header_size || ltb maximum_reparse_data_buffer_size bytes_returned
    then err bytes_returned_bad
    else if ltb (bytes_returned - header_size) reparse_data_len
    then err data_length
    else if ltb reparse_data_len path_buffer_offset_in_symlink
    then err path_buffer
    else let path_buffer_len = reparse_data_len - path_buffer_offset_in_symlink in
      elim (checked_add usize_mod subst_off subst_len) [
        | none ↦ err overflow
        | some end' ↦
            if not (subst_off % 2 == 0) || not (subst_len % 2 == 0) || ltb path_buffer_len end'
            then err offset_length
            else ok tt
      ]

abbrev is_err : Result (Unit {0}) Invalid → Bool
is_err (ok u) = false
is_err (err e) = true

unfoldable pub main : Outcome (Unit {0})
unfolding buggy patched
main = do
  let bytes_returned : ℕ = header_size + path_buffer_offset_in_symlink + 4
  let reparse_data_len : ℕ = path_buffer_offset_in_symlink + 4
  let (off, len, end_bytes) = buggy 0xfffe 2
  assert (ltb maximum_reparse_data_buffer_size end_bytes)
  assert (is_err (patched bytes_returned reparse_data_len 0xfffe 2))

-- The validator accepts exactly the names that lie, at even places, within the path buffer, of a
-- reply that lies within the largest buffer. Offset and length have 16 bits.
pub patched_iff :
    (bytes_returned reparse_data_len subst_off subst_len : ℕ)
    → subst_off < u16_mod
    → subst_len < u16_mod
    → (patched bytes_returned reparse_data_len subst_off subst_len ≡ ok tt) ↔ (
        (header_size + reparse_data_len ≤ bytes_returned)
        × (bytes_returned ≤ maximum_reparse_data_buffer_size)
        × (path_buffer_offset_in_symlink + subst_off + subst_len ≤ reparse_data_len)
        × (subst_off % 2 ≡ 0)
        × (subst_len % 2 ≡ 0))
unfolding patched
patched_iff bytes_returned reparse_data_len subst_off subst_len ho hl = ground arith

-- If the validator accepts the name, the slice that the code before the patch takes ends within the
-- bytes returned.
pub patched-buggy :
    (bytes_returned reparse_data_len subst_off subst_len : ℕ)
    → patched bytes_returned reparse_data_len subst_off subst_len ≡ ok tt
    → header_size + path_buffer_offset_in_symlink + (buggy subst_off subst_len).2 ≤ bytes_returned
unfolding patched buggy
patched-buggy bytes_returned reparse_data_len subst_off subst_len h = ground arith
