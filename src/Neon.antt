-- ===== src/Neon.antt =====
-- The proofs of concept against stdarch-gen-arm (rust-stdlib/pocs). A string is the list of its bytes.
pub mod Suffix
pub mod Wildcards
pub mod Variants
pub mod KeySet
mod Tests
