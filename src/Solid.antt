-- ===== src/Solid.antt =====
-- The proofs of concept against the SOLID port of library/std (rust-stdlib/pocs).
pub mod RemoveDir
pub mod Sockaddr
pub mod SpinMutex
mod Tests
