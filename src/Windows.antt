-- ===== src/Windows.antt =====
-- The proofs of concept against the Windows port of library/std (rust-stdlib/pocs).
pub mod Reparse
pub mod Directory
pub mod InheritRace
pub mod UnicodeString
mod Tests
