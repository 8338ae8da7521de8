-- ===== src/Sync.antt =====
-- The proofs of concept against library/std/src/sync (rust-stdlib/pocs).
pub mod TimedRace
pub mod Poison
mod Tests
