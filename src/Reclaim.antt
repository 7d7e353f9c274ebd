-- ===== src/Reclaim.antt =====
-- store/reclaim: deciding what may be released, and releasing it.
pub mod Plan
pub mod Sweep
pub mod Orphans
pub mod Repack
mod Tests
