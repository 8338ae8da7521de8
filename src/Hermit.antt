-- ===== src/Hermit.antt =====
-- The proofs of concept against the Hermit port of library/std (rust-stdlib/pocs).
pub mod Converted
pub mod Negated
mod Tests
