-- ===== src/Libm.antt =====
-- The proofs of concept against compiler-builtins' libm (rust-stdlib/pocs).
pub mod Exponent
pub mod Mantissa
mod Tests
