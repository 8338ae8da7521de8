-- ===== src/Pushpin.antt =====
-- The proofs of concept against pushpin (pushpin/poc).
pub mod ContentLength
pub mod SocketRace
