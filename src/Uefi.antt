-- ===== src/Uefi.antt =====
-- The proofs of concept against the UEFI port of library/std (rust-stdlib/pocs).
pub mod SystemTime
pub mod FileInfo
pub mod Completion
pub mod DevicePath
pub mod Handles
pub mod Leaks
pub mod BootServices
mod Tests
