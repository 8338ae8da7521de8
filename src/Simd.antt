-- ===== src/Simd.antt =====
-- The proofs of concept against stdarch (rust-stdlib/pocs).
pub mod Lanes
pub mod Features
mod Tests
