-- ===== src/Unix.antt =====
-- The proofs of concept against the Unix port of library/std (rust-stdlib/pocs). The system calls are
-- arguments.
pub mod AltStack
pub mod Signal
pub mod ReadFile
mod Tests
pub mod Descriptors
pub mod Interrupted
pub mod Vectored
pub mod Restore
mod Simulated
mod DescriptorTests
pub mod Redirect
pub mod OpenLeak
