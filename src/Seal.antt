-- ===== src/Seal.antt =====
-- seal/: what surrounds a sealed record. The ciphers are not here.
pub mod Frame
mod Tests
