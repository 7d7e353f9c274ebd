-- ===== src/Manifest.antt =====
-- manifest/: the catalog of record ids to object locations.
pub mod Entry
pub mod Lines
pub mod Log
pub mod Replay
pub mod Compaction
pub mod Catalog
mod Tests
