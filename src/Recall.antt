-- ===== src/Recall.antt =====
-- recall: ranking the records that answer a query.
pub mod Fuse
pub mod Filter
pub mod Rank
pub mod Pipeline
mod Tests
