-- ===== src/Core.antt =====
-- The proofs of concept against library/core (rust-stdlib/pocs).
pub mod CarryingMul
pub mod Clamp
pub mod Duration
pub mod CachedPower
pub mod Quicksort
mod Tests
