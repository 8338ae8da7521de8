-- ===== src/ProcMacro.antt =====
-- The proofs of concept against proc_macro and the macro parsers (rust-stdlib/pocs).
pub mod Literal
pub mod MetaVars
mod Tests
