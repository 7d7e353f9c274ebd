-- ===== src/Record.antt =====
-- record/: the stored form of everything that a vault holds.
pub mod Kind
pub mod Invalid
pub mod Message
pub mod Chunk
pub mod Session
pub mod Memory
pub mod Id
pub mod Sample
mod Tests
