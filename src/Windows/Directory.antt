-- ===== src/Windows/Directory.antt =====
-- rust-stdlib/pocs/009-unchecked-directory-name-length.rs: the name of a directory entry in a buffer.
use security_audits.Base.{
  ℕ, ◌+◌, ◌-◌, ◌*◌, ◌/◌, ◌%◌, ◌≤◌, ◌≡◌, ◌↔◌, Bool, true, false, not, ◌||◌, arith, ltb, ◌==◌,
  if◌then◌else◌, Result, ok, err, Outcome, ◌>>◌, assert,
}

abbrev pub name_offset : ℕ
name_offset = 102

abbrev pub size_of_u16 : ℕ
size_of_u16 = 2

unfoldable pub buggy_request_elems : ℕ → ℕ
buggy_request_elems file_name_length = file_name_length / size_of_u16

pub data Malformed : Type 0 where
  short_buffer malformed_entry : Malformed

abbrev pub entry_len : ℕ → ℕ → ℕ
entry_len buffer_len next_entry = if next_entry == 0 then buffer_len else next_entry

unfoldable pub patched_check : ℕ → ℕ → ℕ → Result ℕ Malformed
patched_check buffer_len next_entry file_name_length =
    let len = entry_len buffer_len next_entry in
    if ltb buffer_len name_offset
    then err short_buffer
    else if ltb buffer_len len
        || ltb len name_offset
        || not (file_name_length % size_of_u16 == 0)
        || ltb (len - name_offset) file_name_length
    then err malformed_entry
    else ok (file_name_length / size_of_u16)

abbrev is_err : Result ℕ Malformed → Bool
is_err (ok n) = false
is_err (err e) = true

unfoldable pub main : Outcome (Unit {0})
unfolding buggy_request_elems patched_check
main = do
  let requested = buggy_request_elems 2048
  assert (ltb 1024 (name_offset + requested * size_of_u16))
  assert (is_err (patched_check 1024 0 2048))

-- The check accepts exactly the names of whole UTF-16 units that end within their entry, where the
-- entry ends within the buffer; it then asks for the elements that the code without it asks for.
pub patched_check_iff :
    (buffer_len next_entry file_name_length n : ℕ)
    → (patched_check buffer_len next_entry file_name_length ≡ ok n) ↔ (
        (n ≡ buggy_request_elems file_name_length)
        × (n * size_of_u16 ≡ file_name_length)
        × (name_offset + file_name_length ≤ entry_len buffer_len next_entry)
        × (entry_len buffer_len next_entry ≤ buffer_len))
unfolding patched_check buggy_request_elems
patched_check_iff buffer_len next_entry file_name_length n = (λ h. ground arith, λ h. ground arith)
