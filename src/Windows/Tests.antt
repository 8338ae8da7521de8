-- ===== src/Windows/Tests.antt =====
-- Runs of the Windows programs, and their theorems at concrete inputs.
use security_audits.Base.{◌+◌, ◌*◌, ◌%◌, ◌≤◌, ◌≡◌, ◌↔◌, refl, arith, done, ok, checked, unchecked}
use security_audits.Windows.Reparse.{
  header_size, maximum_reparse_data_buffer_size, path_buffer_offset_in_symlink, buggy, patched,
  patched_iff, patched-buggy,
}
use security_audits.Windows.Directory.{
  name_offset, size_of_u16, entry_len, buggy_request_elems, patched_check, patched_check_iff,
}
use security_audits.Windows.UnicodeString.{buggy_lengths, lengths-truncated}
use security_audits.Windows.Reparse
use security_audits.Windows.Directory
use security_audits.Windows.UnicodeString

main_reparse : Reparse.main ≡ done tt
unfolding Reparse.main
main_reparse = refl

main_directory : Directory.main ≡ done tt
unfolding Directory.main
main_directory = refl

main_unicode : (UnicodeString.main checked ≡ done tt) × (UnicodeString.main unchecked ≡ done tt)
unfolding UnicodeString.main
main_unicode = (refl, refl)

patched_iff_example : (patched 40 32 4 16 ≡ ok tt) ↔ (
    (header_size + 32 ≤ 40)
    × (40 ≤ maximum_reparse_data_buffer_size)
    × (path_buffer_offset_in_symlink + 4 + 16 ≤ 32)
    × (4 % 2 ≡ 0)
    × (16 % 2 ≡ 0))
patched_iff_example = patched_iff 40 32 4 16 (omega arith) (omega arith)

accepted : patched 40 32 4 16 ≡ ok tt
unfolding patched
accepted = refl

patched-buggy_example : header_size + path_buffer_offset_in_symlink + (buggy 4 16).2 ≤ 40
patched-buggy_example = patched-buggy 40 32 4 16 accepted

patched_check_iff_example : (patched_check 1024 200 64 ≡ ok 32) ↔ (
    (32 ≡ buggy_request_elems 64)
    × (32 * size_of_u16 ≡ 64)
    × (name_offset + 64 ≤ entry_len 1024 200)
    × (entry_len 1024 200 ≤ 1024))
patched_check_iff_example = patched_check_iff 1024 200 64 32
