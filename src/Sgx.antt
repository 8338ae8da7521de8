-- ===== src/Sgx.antt =====
-- The proofs of concept against the port to Fortanix SGX (rust-stdlib/pocs).
pub mod Layouts
pub mod UserSlice
mod Tests
