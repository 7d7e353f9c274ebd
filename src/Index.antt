-- ===== src/Index.antt =====
-- index: the vectors of the records, in memory and in two files.
pub mod Entry
pub mod Heap
pub mod Live
pub mod Search
pub mod Store
mod Tests
