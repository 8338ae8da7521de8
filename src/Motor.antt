-- ===== src/Motor.antt =====
-- The proofs of concept against the Motor OS port of library/std (rust-stdlib/pocs).
pub mod Spawn
pub mod Addresses
mod Tests
