-- ===== src/Xous.antt =====
-- The proofs of concept against the Xous port of library/std (rust-stdlib/pocs).
pub mod Buffer
pub mod Receive
pub mod Send
pub mod Accept
pub mod Listener
pub mod Names
pub mod Lend
pub mod Stack
mod Tests
